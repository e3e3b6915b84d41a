-- ===== src/Base/Maps.antt =====
-- Laws of the insertion-ordered maps: distinct keys, sums over the values, and conditions that hold
-- of every entry.
use mathlib.Core.Path.{◌≡◌, refl, sym, ap, subst}
use mathlib.Core.Bool.{true, false}
use mathlib.Core.Option.{none, some}
use mathlib.Core.List.{List, [], ◌∷◌}
use mathlib.Core.Logic.{inl, inr}
use Prim.Native.Nat.{ℕ, ◌+◌}
use native.Mathlib.Omega.{arith}
use vibetop.Base.Logic.{Bool-cases, if_elim}
use vibetop.Base.Texts.{
  Text, same, same_iff, eq_of_same, lookup, put, remove, lookup-put, lookup-remove,
}

module _ {ℓ} {V : Type ℓ} where
  abbrev pub KeysDistinct : List (Text × V) → Type ℓ
  KeysDistinct [] = Unit
  KeysDistinct ((k, _) ∷ m) = (lookup k m ≡ none) × KeysDistinct m

  remove_absent : (k : Text) (m : List (Text × V)) → lookup k m ≡ none → remove k m ≡ m
  unfolding lookup remove
  remove_absent k [] h = refl
  remove_absent k ((j, w) ∷ m) h = ground (arith, remove_absent k m)

  pub lookup-remove-none :
      (j k : Text) (m : List (Text × V)) → lookup j m ≡ none → lookup j (remove k m) ≡ none
  lookup-remove-none j k m h = ground (arith, lookup-remove k j m)

  pub lookup-put-none :
      (j k : Text) (v : V) (m : List (Text × V))
      → lookup j m ≡ none
      → same k j ≡ false
      → lookup j (put k v m) ≡ none
  lookup-put-none j k v m h d = ground (arith, lookup-put k j v m)

  pub KeysDistinct-remove :
      (k : Text) (m : List (Text × V)) → KeysDistinct m → KeysDistinct (remove k m)
  unfolding remove
  KeysDistinct-remove k [] d = tt
  KeysDistinct-remove k ((j, w) ∷ m) (new, d) =
      if_elim KeysDistinct (same j k) (λ _. KeysDistinct-remove k m d)
        (λ _. (lookup-remove-none j k m new, KeysDistinct-remove k m d))

  pub KeysDistinct-put :
      (k : Text) (v : V) (m : List (Text × V)) → KeysDistinct m → KeysDistinct (put k v m)
  unfolding put lookup
  KeysDistinct-put k v [] d = (refl, tt)
  KeysDistinct-put k v ((j, w) ∷ m) (new, d) =
      if_elim KeysDistinct (same j k) (λ _. (new, d))
        (λ other. (lookup-put-none j k v m new (differs j k other), KeysDistinct-put k v m d))
    where
      differs : (a b : Text) → same a b ≡ false → same b a ≡ false
      differs a b h = ground (arith, same_iff a b, same_iff b a)

  lookup-hit :
      (j k : Text) (w : V) (m : List (Text × V)) {u : V}
      → same j k ≡ true
      → lookup k ((j, w) ∷ m) ≡ some u
      → w ≡ u
  unfolding lookup
  lookup-hit j k w m hit h = ground arith

  lookup-miss :
      (j k : Text) (w : V) (m : List (Text × V)) {u : V}
      → same j k ≡ false
      → lookup k ((j, w) ∷ m) ≡ some u
      → lookup k m ≡ some u
  unfolding lookup
  lookup-miss j k w m miss h = ground arith

  -- The sum of a measure of the values.
  abbrev pub total : (V → ℕ) → List (Text × V) → ℕ
  total f [] = 0
  total f ((_, v) ∷ m) = f v + total f m

  pub total-put_new :
      (f : V → ℕ) (k : Text) (v : V) (m : List (Text × V))
      → lookup k m ≡ none
      → total f (put k v m) ≡ total f m + f v
  unfolding put lookup
  total-put_new f k v [] h = omega arith
  total-put_new f k v ((j, w) ∷ m) h = ground (arith, total-put_new f k v m)

  pub total-put_old :
      (f : V → ℕ) (k : Text) (u v : V) (m : List (Text × V))
      → lookup k m ≡ some u
      → f v ≡ f u
      → total f (put k v m) ≡ total f m
  unfolding put lookup
  total-put_old f k u v [] h e = absurd (cc)
  total-put_old f k u v ((j, w) ∷ m) h e =
      ground (arith, total-put_old f k u v m, ap f {x = w} {y = u})

  pub total-remove :
      (f : V → ℕ) (k : Text) (u : V) (m : List (Text × V))
      → KeysDistinct m
      → lookup k m ≡ some u
      → f u + total f (remove k m) ≡ total f m
  unfolding remove lookup
  total-remove f k u [] d h = absurd (cc)
  total-remove f k u ((j, w) ∷ m) (new, d) h =
      if_elim (λ x. f u + total f x ≡ f w + total f m) (same j k)
        (λ hit.
          let gone = remove_absent k m (subst (λ i. lookup i m ≡ none) (eq_of_same j k hit) new) in
          let value = lookup-hit j k w m hit h in omega (arith, ap (total f) gone, ap f value))
        (λ miss. omega (arith, total-remove f k u m d (lookup-miss j k w m miss h)))

  -- A condition on every entry.
  abbrev pub AllEntries {κ} : (Text → V → Type κ) → List (Text × V) → Type κ
  AllEntries P [] = Unit
  AllEntries P ((k, v) ∷ m) = P k v × AllEntries P m

  pub AllEntries-lookup {κ} :
      (P : Text → V → Type κ) (k : Text) (m : List (Text × V)) {v : V}
      → AllEntries P m
      → lookup k m ≡ some v
      → P k v
  unfolding lookup
  AllEntries-lookup P k [] a h = absurd (cc)
  AllEntries-lookup P k ((j, w) ∷ m) {v} (p, a) h = elim (Bool-cases (same j k)) [
    | inl hit ↦ subst (λ i. P i v) (eq_of_same j k hit) (subst (P j) (lookup-hit j k w m hit h) p)
    | inr miss ↦ AllEntries-lookup P k m a (lookup-miss j k w m miss h)
  ]

  pub AllEntries-remove {κ} :
      (P : Text → V → Type κ) (k : Text) (m : List (Text × V))
      → AllEntries P m
      → AllEntries P (remove k m)
  unfolding remove
  AllEntries-remove P k [] a = tt
  AllEntries-remove P k ((j, w) ∷ m) (p, a) =
      if_elim (AllEntries P) (same j k) (λ _. AllEntries-remove P k m a)
        (λ _. (p, AllEntries-remove P k m a))

  pub AllEntries-put {κ} :
      (P : Text → V → Type κ) (k : Text) (v : V) (m : List (Text × V))
      → P k v
      → AllEntries P m
      → AllEntries P (put k v m)
  unfolding put
  AllEntries-put P k v [] q a = (q, tt)
  AllEntries-put P k v ((j, w) ∷ m) q (p, a) =
      if_elim (AllEntries P) (same j k)
        (λ hit. (subst (λ i. P i v) (sym (eq_of_same j k hit)) q, a))
        (λ _. (p, AllEntries-put P k v m q a))
