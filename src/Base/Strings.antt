-- ===== src/Base/Strings.antt =====
-- The string operations of the language that several parts use, on lists of character codes. Case is
-- that of the ASCII letters.
use mathlib.Core.Bool.{Bool, true, false, ◌&&◌, ◌||◌}
use mathlib.Core.List.{List, [], ◌∷◌, ◌++◌, reverse}
use mathlib.Core.Option.{Option, none, some}
use mathlib.Core.List.{map}
use Prim.Native.Nat.{ℕ, ◌+◌}
use mathlib.Core.Path.{◌≡◌, refl}
use mathlib.Core.Logic.{inl, inr}
use native.Mathlib.Omega.{arith}
use vibetop.Base.Logic.{Bool-cases, leb, ◌==◌, if◌then◌else◌}
use vibetop.Base.Texts.{Text, same}

-- The code points that `trim` removes.
is_space : ℕ → Bool
is_space c =
    leb 9 c && leb c 13
    || c == 32
    || c == 160
    || c == 5760
    || leb 8192 c && leb c 8202
    || c == 8232
    || c == 8233
    || c == 8239
    || c == 8287
    || c == 12288
    || c == 65279

trim_start : Text → Text
trim_start [] = []
trim_start (c ∷ cs) = let rest = trim_start cs in if is_space c then rest else c ∷ cs

unfoldable pub trim : Text → Text
unfolding trim_start is_space
trim t = reverse (trim_start (reverse (trim_start t)))

abbrev pub lower : ℕ → ℕ
lower c = if leb 65 c && leb c 90 then c + 32 else c

abbrev pub to_lower : Text → Text
to_lower t = map lower t

abbrev pub is_nil : Text → Bool
is_nil [] = true
is_nil (_ ∷ _) = false

-- `startsWith`, with the rest.
unfoldable pub after_prefix : Text → Text → Option Text
after_prefix [] t = some t
after_prefix (_ ∷ _) [] = none
after_prefix (p ∷ ps) (c ∷ cs) = let rest = after_prefix ps cs in if p == c then rest else none

-- `endsWith`
unfoldable pub ends_with : Text → Text → Bool
ends_with [] end = same [] end
ends_with (c ∷ cs) end = same (c ∷ cs) end || ends_with cs end

-- A character before the first of some pieces.
abbrev pub prepend : ℕ → List Text → List Text
prepend c [] = (c ∷ []) ∷ []
prepend c (s ∷ ss) = (c ∷ s) ∷ ss

-- `split` at a character.
unfoldable pub split_at : ℕ → Text → List Text
split_at sep [] = [] ∷ []
split_at sep (c ∷ cs) = let rest = split_at sep cs in if c == sep then [] ∷ rest else prepend c rest

-- `join`
unfoldable pub join_with : Text → List Text → Text
join_with sep [] = []
join_with sep (s ∷ []) = s
join_with sep (s ∷ r ∷ rest) = s ++ sep ++ join_with sep (r ∷ rest)

abbrev pub any {ℓ} : {A : Type ℓ} → (A → Bool) → List A → Bool
any p [] = false
any p (x ∷ xs) = p x || any p xs

-- Array `includes` on texts.
abbrev pub is_one_of : Text → List Text → Bool
is_one_of t ts = any (same t) ts

split_at-cases : (sep : ℕ) (t : Text) → (s : Text) × (ss : List Text) × (split_at sep t ≡ s ∷ ss)
unfolding split_at
split_at-cases sep [] = ([], [], refl)
split_at-cases sep (c ∷ cs) =
    let (s, ss, e) = split_at-cases sep cs in
    elim (Bool-cases (c == sep)) [
      | inl hit ↦ ([], s ∷ ss, ground (arith, hit, e))
      | inr miss ↦ (c ∷ s, ss, ground (arith, miss, e))
    ]

split_at-one : (sep : ℕ) (t s : Text) → split_at sep t ≡ s ∷ [] → t ≡ s
unfolding split_at
split_at-one sep [] s h = ground arith
split_at-one sep (c ∷ cs) s h =
    let (x, xs, e) = split_at-cases sep cs in
    elim (Bool-cases (c == sep)) [
      | inl hit ↦ ground (arith, h, hit, e)
      | inr miss ↦ ground (arith, h, miss, e, split_at-one sep cs x)
    ]

-- A text that splits into two parts is both of them with the separator between.
pub split_at-pair : (sep : ℕ) (t d s : Text) → split_at sep t ≡ d ∷ s ∷ [] → t ≡ d ++ sep ∷ s
unfolding split_at
split_at-pair sep [] d s h = absurd (cc)
split_at-pair sep (c ∷ cs) d s h =
    let (x, xs, e) = split_at-cases sep cs in
    elim (Bool-cases (c == sep)) [
      | inl hit ↦ ground (arith, h, hit, e, split_at-one sep cs s)
      | inr miss ↦ ground (arith, h, miss, e, split_at-pair sep cs x s)
    ]

-- A part without the separator, and what comes after it.
pub split_at-append :
    (sep : ℕ) (d t : Text)
    → split_at sep d ≡ d ∷ []
    → split_at sep (d ++ sep ∷ t) ≡ d ∷ split_at sep t
unfolding split_at
split_at-append sep [] t h = ground arith
split_at-append sep (c ∷ cs) t h =
    let (x, xs, e) = split_at-cases sep cs in
    elim (Bool-cases (c == sep)) [
      | inl hit ↦ ground (arith, h, hit)
      | inr miss ↦ ground (arith, h, miss, e, split_at-append sep cs t)
    ]
