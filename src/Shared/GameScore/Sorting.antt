-- ===== src/Shared/GameScore/Sorting.antt =====
-- Stable sorting by insertion: the result is sorted and has the same elements.
use vibetop.Base.{
  ℕ, zero, suc, ◌+◌, ◌≤◌, ◌≡◌, refl, sym, ◌∙◌, ap, subst, append_assoc, append-nil, Bool, true,
  false, not, List, [], ◌∷◌, ◌++◌, if◌then◌else◌, if_elim, take, keep, arith,
}
use vibetop.Shared.GameScore.{insert, sort_onto}

module _ {A : Type 0} where
  -- Each row is not after the next one.
  unfoldable pub IsSorted : (A → A → Bool) → List A → Type 0
  IsSorted less [] = Unit
  IsSorted less (a ∷ []) = Unit
  IsSorted less (a ∷ b ∷ bs) = (less b a ≡ false) × IsSorted less (b ∷ bs)

  insert_after :
      (less : A → A → Bool) (a b : A) (bs : List A)
      → ((a b : A) → less a b ≡ true → less b a ≡ false)
      → less a b ≡ false
      → IsSorted less (b ∷ bs)
      → IsSorted less (b ∷ insert less a bs)
  unfolding insert IsSorted
  insert_after less a b [] asym after h = (after, tt)
  insert_after less a b (c ∷ cs) asym after (next, h) =
      if_elim (λ xs. IsSorted less (b ∷ xs)) (less a c) (λ up. (after, (asym a c up, h)))
        (λ down. (next, insert_after less a c cs asym down h))

  insert-IsSorted :
      (less : A → A → Bool) (a : A) (bs : List A)
      → ((a b : A) → less a b ≡ true → less b a ≡ false)
      → IsSorted less bs
      → IsSorted less (insert less a bs)
  unfolding insert IsSorted
  insert-IsSorted less a [] asym h = tt
  insert-IsSorted less a (b ∷ bs) asym h =
      if_elim (IsSorted less) (less a b) (λ up. (asym a b up, h))
        (λ down. insert_after less a b bs asym down h)

  pub sort_onto-IsSorted :
      (less : A → A → Bool) (bs xs : List A)
      → ((a b : A) → less a b ≡ true → less b a ≡ false)
      → IsSorted less bs
      → IsSorted less (sort_onto less bs xs)
  unfolding sort_onto
  sort_onto-IsSorted less bs [] asym h = h
  sort_onto-IsSorted less bs (x ∷ xs) asym h =
      sort_onto-IsSorted less (insert less x bs) xs asym (insert-IsSorted less x bs asym h)

  pub take-IsSorted :
      (less : A → A → Bool) (n : ℕ) (xs : List A) → IsSorted less xs → IsSorted less (take n xs)
  unfolding IsSorted
  take-IsSorted less zero xs h = tt
  take-IsSorted less (suc n) [] h = tt
  take-IsSorted less (suc zero) (a ∷ xs) h = tt
  take-IsSorted less (suc (suc n)) (a ∷ []) h = tt
  take-IsSorted less (suc (suc n)) (a ∷ b ∷ bs) (next, h) =
      (next, take-IsSorted less (suc n) (b ∷ bs) h)

  -- How many elements pass a test.
  unfoldable pub count_if : (A → Bool) → List A → ℕ
  count_if p [] = 0
  count_if p (x ∷ xs) = (if p x then 1 else 0) + count_if p xs

  count_if-insert :
      (p : A → Bool) (less : A → A → Bool) (a : A) (bs : List A)
      → count_if p (insert less a bs) ≡ (if p a then 1 else 0) + count_if p bs
  unfolding insert count_if
  count_if-insert p less a [] = refl
  count_if-insert p less a (b ∷ bs) = ground (arith, count_if-insert p less a bs)

  pub count_if-sort_onto :
      (p : A → Bool) (less : A → A → Bool) (bs xs : List A)
      → count_if p (sort_onto less bs xs) ≡ count_if p bs + count_if p xs
  unfolding sort_onto count_if
  count_if-sort_onto p less bs [] = omega arith
  count_if-sort_onto p less bs (x ∷ xs) =
      omega (arith, count_if-sort_onto p less (insert less x bs) xs, count_if-insert p less x bs)

  pub count_if-append :
      (p : A → Bool) (xs ys : List A) → count_if p (xs ++ ys) ≡ count_if p xs + count_if p ys
  unfolding count_if
  count_if-append p [] ys = omega arith
  count_if-append p (x ∷ xs) ys = omega (arith, count_if-append p xs ys)

  pub count_if-take : (p : A → Bool) (n : ℕ) (xs : List A) → count_if p (take n xs) ≤ count_if p xs
  unfolding count_if
  count_if-take p zero xs = omega arith
  count_if-take p (suc n) [] = omega arith
  count_if-take p (suc n) (x ∷ xs) = omega (arith, count_if-take p n xs)

  pub count_if-keep : (p q : A → Bool) (xs : List A) → count_if p (keep q xs) ≤ count_if p xs
  unfolding count_if
  count_if-keep p q [] = omega arith
  count_if-keep p q (x ∷ xs) = ground (arith, count_if-keep p q xs)

  pub count_if-keep-not : (p : A → Bool) (xs : List A) → count_if p (keep (λ x. not (p x)) xs) ≡ 0
  unfolding count_if
  count_if-keep-not p [] = refl
  count_if-keep-not p (x ∷ xs) = ground (arith, count_if-keep-not p xs)

  -- Nothing is after `x`.
  NoneAfter : (A → A → Bool) → A → List A → Type 0
  NoneAfter less x [] = Unit
  NoneAfter less x (b ∷ bs) = (less x b ≡ false) × NoneAfter less x bs

  insert_last :
      (less : A → A → Bool) (x : A) (bs : List A)
      → NoneAfter less x bs
      → insert less x bs ≡ bs ++ x ∷ []
  unfolding NoneAfter insert
  insert_last less x [] h = refl
  insert_last less x (b ∷ bs) (after, h) = rw (after, insert_last less x bs h) refl

  NoneAfter-sorted :
      (less : A → A → Bool) (x : A) (bs xs : List A)
      → ((a b c : A) → less b a ≡ false → less c b ≡ false → less c a ≡ false)
      → IsSorted less (bs ++ x ∷ xs)
      → NoneAfter less x bs
  unfolding IsSorted NoneAfter
  NoneAfter-sorted less x [] xs trans h = tt
  NoneAfter-sorted less x (b ∷ []) xs trans (next, h) = (next, tt)
  NoneAfter-sorted less x (b ∷ c ∷ cs) xs trans (next, h) =
      let rest = NoneAfter-sorted less x (c ∷ cs) xs trans h in (trans b c x next rest.0, rest)

  sort_onto_sorted :
      (less : A → A → Bool) (bs xs : List A)
      → ((a b c : A) → less b a ≡ false → less c b ≡ false → less c a ≡ false)
      → IsSorted less (bs ++ xs)
      → sort_onto less bs xs ≡ bs ++ xs
  unfolding sort_onto
  sort_onto_sorted less bs [] trans h = sym (append-nil bs)
  sort_onto_sorted less bs (x ∷ xs) trans h =
      let last = insert_last less x bs (NoneAfter-sorted less x bs xs trans h) in
      let regroup : (bs ++ x ∷ []) ++ xs ≡ bs ++ x ∷ xs = append_assoc bs (x ∷ []) xs in
      ap (λ ys. sort_onto less ys xs) last
      ∙ sort_onto_sorted less (bs ++ x ∷ []) xs trans (subst (IsSorted less) (sym regroup) h)
      ∙ regroup

  -- A sorted list is left as it is.
  pub sort_sorted :
      (less : A → A → Bool) (xs : List A)
      → ((a b c : A) → less b a ≡ false → less c b ≡ false → less c a ≡ false)
      → IsSorted less xs
      → sort_onto less [] xs ≡ xs
  sort_sorted less xs trans h = sort_onto_sorted less [] xs trans h
