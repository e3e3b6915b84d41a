-- ===== src/Term/Resume/Scan.antt =====
-- How the loop's search goes on when more text arrives.
use vibetop.Base.{
  ℕ, ◌+◌, ◌≤◌, ◌≡◌, refl, ap, Option, none, some, [], ◌∷◌, ◌++◌, arith, length, Text, Option-cases,
  inl, inr, ◌⊎◌,
}
use vibetop.Term.Resume.{strip_prefix, cut, hold_back, until_bell, from_last}

pub strip_prefix-append :
    (p x y r : Text) → strip_prefix p x ≡ some r → strip_prefix p (x ++ y) ≡ some (r ++ y)
unfolding strip_prefix
strip_prefix-append [] x y r h = ground (arith, h)
strip_prefix-append (p ∷ ps) [] y r h = ground (arith, h)
strip_prefix-append (p ∷ ps) (x ∷ xs) y r h = ground (arith, h, strip_prefix-append ps xs y r)

-- A text that neither begins with the prefix nor may begin it does not when it gets longer.
strip_prefix-none :
    (p x y : Text)
    → strip_prefix p x ≡ none
    → strip_prefix x p ≡ none
    → strip_prefix p (x ++ y) ≡ none
unfolding strip_prefix
strip_prefix-none [] x y h k = ground (arith, h)
strip_prefix-none (p ∷ ps) [] y h k = ground (arith, k)
strip_prefix-none (p ∷ ps) (x ∷ xs) y h k = ground (arith, h, k, strip_prefix-none ps xs y)

strip_prefix-longer : (x y p : Text) → strip_prefix x p ≡ none → strip_prefix (x ++ y) p ≡ none
unfolding strip_prefix
strip_prefix-longer [] y p h = ground (arith, h)
strip_prefix-longer (x ∷ xs) y [] h = refl
strip_prefix-longer (x ∷ xs) y (p ∷ ps) h = ground (arith, h, strip_prefix-longer xs y ps)

pub strip_prefix-length :
    (p x r : Text) → strip_prefix p x ≡ some r → length x ≡ length p + length r
unfolding strip_prefix
strip_prefix-length [] x r h = ground (arith, h)
strip_prefix-length (p ∷ ps) [] r h = ground (arith, h)
strip_prefix-length (p ∷ ps) (x ∷ xs) r h = ground (arith, h, strip_prefix-length ps xs r)

cut-some :
    (p : Text) (c : ℕ) (xs before rest : Text)
    → cut p (c ∷ xs) ≡ some (before, rest)
    → ((strip_prefix p (c ∷ xs) ≡ some rest) × (before ≡ []))
      ⊎ ((strip_prefix p (c ∷ xs) ≡ none)
          × ((w : Text) × (cut p xs ≡ some (w, rest)) × (before ≡ c ∷ w)))
unfolding cut
cut-some p c xs before rest h = elim (Option-cases (strip_prefix p (c ∷ xs))) [
  | inl no_marker ↦ elim (Option-cases (cut p xs)) [
    | inl absent ↦ cc
    | inr ((w, r), found) ↦
        inr
          (no_marker, (w, ground (arith, h, no_marker, found), ground (arith, h, no_marker, found)))
  ]
  | inr (r, found) ↦ inl (ground (arith, h, found), ground (arith, h, found))
]

pub cut-length :
    (p x before rest : Text)
    → cut p x ≡ some (before, rest)
    → length x ≡ length before + length p + length rest
unfolding cut
cut-length p [] before rest h = ground (arith, h)
cut-length p (c ∷ xs) before rest h = elim (cut-some p c xs before rest h) [
  | inl (found, empty) ↦
      omega (arith, strip_prefix-length p (c ∷ xs) rest found, ap (length {A = ℕ}) empty)
  | inr (no_marker, (w, found, cons)) ↦
      omega (arith, cut-length p xs w rest found, ap (length {A = ℕ}) cons)
]

pub cut-append :
    (p x y before rest : Text)
    → cut p x ≡ some (before, rest)
    → cut p (x ++ y) ≡ some (before, rest ++ y)
unfolding cut
cut-append p [] y before rest h = ground (arith, h)
cut-append p (c ∷ xs) y before rest h = elim (cut-some p c xs before rest h) [
  | inl (found, empty) ↦ ground (arith, strip_prefix-append p (c ∷ xs) y rest found, empty)
  | inr (no_marker, (w, found, cons)) ↦
      let short : strip_prefix (c ∷ xs) p ≡ none = elim (Option-cases (strip_prefix (c ∷ xs) p)) [
        | inl none_left ↦ none_left
        | inr (r, fits) ↦
            absurd
              (omega (arith, strip_prefix-length (c ∷ xs) p r fits, cut-length p xs w rest found))
      ] in
      ground (
        arith,
        strip_prefix-none p (c ∷ xs) y no_marker short,
        cut-append p xs y w rest found,
        cons,
      )
]

-- The found place moves behind a text that is in front.
abbrev pub in_front : Text → Option (Text × Text) → Option (Text × Text)
in_front w none = none
in_front w (some (before, rest)) = some (w ++ before, rest)

in_front_nil : (o : Option (Text × Text)) → o ≡ in_front [] o
in_front_nil none = refl
in_front_nil (some (before, rest)) = refl

pub cut-hold_back :
    (p x y : Text)
    → cut p x ≡ none
    → cut p (x ++ y) ≡ in_front (hold_back p x).0 (cut p ((hold_back p x).1 ++ y))
unfolding cut hold_back
cut-hold_back p [] y h = in_front_nil (cut p y)
cut-hold_back p (c ∷ xs) y h = elim (Option-cases (strip_prefix (c ∷ xs) p)) [
  | inl no_begin ↦ elim (Option-cases (strip_prefix p (c ∷ xs))) [
    | inl no_marker ↦ ground (
      arith,
      h,
      no_begin,
      no_marker,
      strip_prefix-none p (c ∷ xs) y no_marker no_begin,
      cut-hold_back p xs y,
      Option-cases (cut p ((hold_back p xs).1 ++ y)),
    )
    | inr (r, found) ↦ cc
  ]
  | inr (r, begins) ↦ ground (arith, begins, in_front_nil (cut p (c ∷ (xs ++ y))))
]

pub hold_back-append :
    (p x y : Text)
    → hold_back p (x ++ y) ≡ (
      (hold_back p x).0 ++ (hold_back p ((hold_back p x).1 ++ y)).0,
      (hold_back p ((hold_back p x).1 ++ y)).1,
    )
unfolding hold_back
hold_back-append p [] y = refl
hold_back-append p (c ∷ xs) y = elim (Option-cases (strip_prefix (c ∷ xs) p)) [
  | inl no_begin ↦
      ground (arith, no_begin, strip_prefix-longer (c ∷ xs) y p no_begin, hold_back-append p xs y)
  | inr (r, begins) ↦ ground (arith, begins)
]

pub until_bell-append :
    (x y body after : Text)
    → until_bell x ≡ some (body, after)
    → until_bell (x ++ y) ≡ some (body, after ++ y)
unfolding until_bell
until_bell-append [] y body after h = ground (arith, h)
until_bell-append (c ∷ xs) y body after h = elim (Option-cases (until_bell xs)) [
  | inl no_bell ↦ ground (arith, h, no_bell)
  | inr ((b, a), found) ↦ ground (arith, h, found, until_bell-append xs y b a found)
]

pub until_bell-length :
    (x body after : Text)
    → until_bell x ≡ some (body, after)
    → length x ≡ length body + length after + 1
unfolding until_bell
until_bell-length [] body after h = ground (arith, h)
until_bell-length (c ∷ xs) body after h = elim (Option-cases (until_bell xs)) [
  | inl no_bell ↦ ground (arith, h, no_bell)
  | inr ((b, a), found) ↦ ground (arith, h, found, until_bell-length xs b a found)
]

pub from_last-length : (p x newer : Text) → from_last p x ≡ some newer → length newer ≤ length x
unfolding from_last
from_last-length p [] newer h = ground (arith, h)
from_last-length p (c ∷ xs) newer h = elim (Option-cases (from_last p xs)) [
  | inl no_later ↦ ground (arith, h, no_later)
  | inr (n, found) ↦ ground (arith, h, found, from_last-length p xs n found)
]
