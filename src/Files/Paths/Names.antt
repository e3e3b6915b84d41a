-- ===== src/Files/Paths/Names.antt =====
-- A numbered copy of a name keeps its extension.
use vibetop.Base.{
  ℕ, zero, suc, ◌+◌, ◌/◌, ◌%◌, ◌≤◌, ◌≡◌, refl, sym, ◌∙◌, ap, subst, Option, none, some, [], ◌∷◌,
  ◌++◌, length, take, drop, Text, arith, length-append,
}
use vibetop.Files.Paths.{
  dot, last_index, show_within, show, number_tag, name_at, next_name, extension_at, extension,
}

last_index-append :
    (c : ℕ) (xs ys : Text)
    → last_index c (xs ++ ys)
      ≡ elim (last_index c ys) [ some j ↦ some (length xs + j) | none ↦ last_index c xs ]
unfolding last_index
last_index-append c [] ys = ground arith
last_index-append c (x ∷ xs) ys = ground (arith, last_index-append c xs ys)

show_within-no_dot : (fuel n : ℕ) → last_index dot (show_within fuel n) ≡ none
unfolding show_within last_index
show_within-no_dot zero n = refl
show_within-no_dot (suc fuel) n = ground (
  arith,
  show_within-no_dot fuel (n / 10),
  last_index-append dot (show_within fuel (n / 10)) ((48 + n % 10) ∷ []),
)

number_tag-no_dot : (n : ℕ) → last_index dot (number_tag n) ≡ none
unfolding number_tag show last_index
number_tag-no_dot n =
    ground
      (arith, show_within-no_dot (n + 1) n, last_index-append dot (show_within (n + 1) n) (41 ∷ []))

-- The character at the last index is the first one of what follows.
last_index-drop : (c i : ℕ) (t : Text) → last_index c t ≡ some i → last_index c (drop i t) ≡ some 0
unfolding last_index
last_index-drop c i [] h = ground arith
last_index-drop c zero (d ∷ ds) h = h
last_index-drop c (suc i) (d ∷ ds) h = last_index-drop c i ds (ground arith)

length_before : (c i : ℕ) (t : Text) → last_index c t ≡ some i → length (take i t) ≡ i
unfolding last_index
length_before c i [] h = ground arith
length_before c zero (d ∷ ds) h = refl
length_before c (suc i) (d ∷ ds) h = ap suc (length_before c i ds (ground arith))

drop-append : (xs ys : Text) (k : ℕ) → drop (length xs + k) (xs ++ ys) ≡ drop k ys
drop-append [] ys k = ground arith
drop-append (x ∷ xs) ys k =
    let count : suc (length xs + k) ≡ suc (length xs) + k = omega arith in
    subst (λ j. drop j (x ∷ xs ++ ys) ≡ drop k ys) count (drop-append xs ys k)

drop-drop : (i : ℕ) (t : Text) → drop 1 (drop i t) ≡ drop (suc i) t
drop-drop zero [] = refl
drop-drop (suc i) [] = refl
drop-drop zero (c ∷ cs) = refl
drop-drop (suc i) (c ∷ cs) = drop-drop i cs

extension_at-some : (k : ℕ) (t : Text) → 1 ≤ k → extension_at (some k) t ≡ drop (k + 1) t
unfolding extension_at
extension_at-some zero t h = ground arith
extension_at-some (suc k) t h = refl

last_index_tagged :
    (name : Text) (n : ℕ) → last_index dot (name ++ number_tag n) ≡ last_index dot name
last_index_tagged name n =
    ground (arith, last_index-append dot name (number_tag n), number_tag-no_dot n)

extension-name_at :
    (found : Option ℕ) (name : Text) (n : ℕ)
    → last_index dot name ≡ found
    → extension (name_at found name n) ≡ extension_at found name
unfolding extension name_at
extension-name_at none name n h =
    ap (λ i. extension_at i (name ++ number_tag n)) (last_index_tagged name n ∙ h)
extension-name_at (some zero) name n h =
    ap (λ i. extension_at i (name ++ number_tag n)) (last_index_tagged name n ∙ h)
extension-name_at (some (suc i)) name n h =
    let a = take (suc i) name in
    let b = number_tag n in
    let c = drop (suc i) name in
    let size : length a ≡ suc i = length_before dot (suc i) name h in
    let p = a ++ b in
    let place : last_index dot (p ++ c) ≡ some (length p + 0) =
      ground (arith, last_index-append dot p c, last_index-drop dot (suc i) name h) in
    let one : length p + 0 + 1 ≡ length p + 1 = omega arith in
    let two : suc i + 1 ≡ suc (suc i) = omega arith in
    ap (λ k. extension_at k (p ++ c)) place
    ∙ extension_at-some (length p + 0) (p ++ c) (omega (arith, length-append a b))
    ∙ ap (λ k. drop k (p ++ c)) one
    ∙ drop-append p c 1
    ∙ drop-drop (suc i) name
    ∙ ap (λ k. drop k name) (sym two)

-- A numbered copy of a name has the extension of the name, whatever the name and the number, also
-- where the name has no dot or begins with its only one.
extension-next_name : (name : Text) (n : ℕ) → extension (next_name name n) ≡ extension name
unfolding extension next_name
extension-next_name name n = extension-name_at (last_index dot name) name n refl
