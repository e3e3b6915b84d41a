-- ===== src/Base/Texts.antt =====
-- Texts as lists of character codes, their equality test, and insertion-ordered maps keyed by them
-- (a JavaScript `Map`, or the own properties of an object).
use mathlib.Core.Path.{◌≡◌, refl, ap, ap₂}
use mathlib.Core.Logic.{◌↔◌}
use mathlib.Core.Bool.{Bool, true, false, ◌&&◌}
use mathlib.Core.Option.{Option, none, some}
use mathlib.Core.List.{List, [], ◌∷◌}
use Prim.Native.Nat.{ℕ, ◌≤◌, ◌+◌}
use Prim.Native.Char.{code}
use Prim.Native.String.{String}
use native.Mathlib.Omega.{arith}
use vibetop.Base.Logic.{◌==◌, if◌then◌else◌}
use vibetop.Base.Lists.{length}

abbrev pub Text : Type 0
Text = List ℕ

-- `a === b` on texts.
unfoldable pub same : Text → Text → Bool
same [] [] = true
same [] (_ ∷ _) = false
same (_ ∷ _) [] = false
same (a ∷ as') (b ∷ bs) = a == b && same as' bs

pub same_refl : (a : Text) → same a a ≡ true
unfolding same
same_refl [] = refl
same_refl (x ∷ a) = ground (arith, same_refl a)

pub eq_of_same : (a b : Text) → same a b ≡ true → a ≡ b
unfolding same
eq_of_same [] [] h = refl
eq_of_same [] (_ ∷ _) h = cc
eq_of_same (_ ∷ _) [] h = cc
eq_of_same (x ∷ a) (y ∷ b) h =
    let p : x ≡ y = ground arith in
    let q : same a b ≡ true = ground arith in ap₂ (◌∷◌) p (eq_of_same a b q)

pub same_iff : (a b : Text) → (same a b ≡ true) ↔ (a ≡ b)
same_iff a b = (eq_of_same a b, λ e. rw e (same_refl b))

-- `a === b` on texts that may be absent.
unfoldable pub same_option : Option Text → Option Text → Bool
same_option none none = true
same_option none (some _) = false
same_option (some _) none = false
same_option (some a) (some b) = same a b

pub same_option_refl : (a : Option Text) → same_option a a ≡ true
unfolding same_option
same_option_refl none = refl
same_option_refl (some a) = same_refl a

pub eq_of_same_option : (a b : Option Text) → same_option a b ≡ true → a ≡ b
unfolding same_option
eq_of_same_option none none h = refl
eq_of_same_option none (some _) h = cc
eq_of_same_option (some _) none h = cc
eq_of_same_option (some a) (some b) h = ap some ((same_iff a b).0 h)

module _ {ℓ} {V : Type ℓ} where
  unfoldable pub lookup : Text → List (Text × V) → Option V
  lookup k [] = none
  lookup k ((j, v) ∷ m) = let rest = lookup k m in if same j k then some v else rest

  -- `map.set(k, v)`: in place where the key is there, at the end where it is new.
  unfoldable pub put : Text → V → List (Text × V) → List (Text × V)
  put k v [] = (k, v) ∷ []
  put k v ((j, w) ∷ m) = let rest = put k v m in if same j k then (j, v) ∷ m else (j, w) ∷ rest

  -- `map.delete(k)`
  unfoldable pub remove : Text → List (Text × V) → List (Text × V)
  remove k [] = []
  remove k ((j, w) ∷ m) = let rest = remove k m in if same j k then rest else (j, w) ∷ rest

  pub lookup-put :
      (k j : Text) (v : V) (m : List (Text × V))
      → lookup j (put k v m) ≡ (if same k j then some v else lookup j m)
  unfolding lookup put
  lookup-put k j v [] = refl
  lookup-put k j v ((i, w) ∷ m) =
      ground (arith, same_iff k j, same_iff i k, same_iff i j, lookup-put k j v m)

  pub lookup-put_same : (k : Text) (v : V) (m : List (Text × V)) → lookup k (put k v m) ≡ some v
  lookup-put_same k v m = ground (arith, lookup-put k k v m, same_refl k)

  pub lookup-remove :
      (k j : Text) (m : List (Text × V))
      → lookup j (remove k m) ≡ (if same k j then none else lookup j m)
  unfolding lookup remove
  lookup-remove k j [] = ground arith
  lookup-remove k j ((i, w) ∷ m) =
      ground (arith, same_iff k j, same_iff i k, same_iff i j, lookup-remove k j m)

  pub length-put : (k : Text) (v : V) (m : List (Text × V)) → length (put k v m) ≤ length m + 1
  unfolding put
  length-put k v [] = omega arith
  length-put k v ((j, w) ∷ m) = ground (arith, length-put k v m)

  pub length-remove : (k : Text) (m : List (Text × V)) → length (remove k m) ≤ length m
  unfolding remove
  length-remove k [] = omega arith
  length-remove k ((j, w) ∷ m) = ground (arith, length-remove k m)

  -- A write to a key that is there keeps the size.
  pub length-put_old :
      (k : Text) {u : V} (v : V) (m : List (Text × V))
      → lookup k m ≡ some u
      → length (put k v m) ≡ length m
  unfolding put lookup
  length-put_old k {u} v [] h = absurd (cc)
  length-put_old k {u} v ((j, w) ∷ m) h = ground (arith, length-put_old k {u = u} v m)

  -- A removal of a key that is there makes the map smaller.
  pub length-remove_old :
      (k : Text) {u : V} (m : List (Text × V))
      → lookup k m ≡ some u
      → length (remove k m) + 1 ≤ length m
  unfolding remove lookup
  length-remove_old k {u} [] h = absurd (cc)
  length-remove_old k {u} ((j, w) ∷ m) h =
      ground (arith, length-remove_old k {u = u} m, length-remove k m)

-- The characters of a literal.
abbrev pub codes : String → Text
codes String.[] = []
codes (String.◌∷◌ c s) = code c ∷ codes s
