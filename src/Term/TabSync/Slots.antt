-- ===== src/Term/TabSync/Slots.antt =====
-- What `nextAvailable` promises.
use vibetop.Base.{
  ℕ, zero, suc, ◌+◌, ◌<◌, ◌≤◌, ◌≡◌, refl, ◌||◌, true, false, List, ◌++◌, arith, mem, mem-append,
  Bool-cases, inl, inr, ◌⊎◌, ◌==◌, ==_iff,
}
use vibetop.Term.TabSync.{first_free, next_available}

-- `n` is taken by a shown tab or by a running session.
abbrev pub IsTaken : List ℕ → List ℕ → ℕ → Type 0
IsTaken used running n = (mem n used || mem n running) ≡ true

-- The answer over the slots from `i` on: the least free one, or 0 where all are taken.
abbrev Answers : List ℕ → ℕ → ℕ → ℕ → Type 0
Answers used rounds i r =
    ((r ≡ 0) × ((j : ℕ) → i ≤ j → j < i + rounds → mem j used ≡ true))
    ⊎ ((i ≤ r)
        × (r < i + rounds)
        × (mem r used ≡ false)
        × ((j : ℕ) → i ≤ j → j < r → mem j used ≡ true))

taken_from :
    (used : List ℕ) (i : ℕ) {r : ℕ}
    → mem i used ≡ true
    → ((j : ℕ) → i + 1 ≤ j → j < r → mem j used ≡ true)
    → (j : ℕ) → i ≤ j
    → j < r
    → mem j used ≡ true
taken_from used i taken rest j p q = elim (Bool-cases (j == i)) [
  | inl eq ↦ rw ((==_iff j i).0 eq) taken
  | inr ne ↦ rest j (ground arith) q
]

first_free-Answers :
    (used : List ℕ) (rounds i : ℕ) → Answers used rounds i (first_free used rounds i)
unfolding first_free
first_free-Answers used zero i = inl (refl, λ j p q. absurd (omega arith))
first_free-Answers used (suc rounds) i = elim (Bool-cases (mem i used)) [
  | inr free ↦ rw free (inr (omega arith, omega arith, free, λ j p q. absurd (omega arith)))
  | inl taken ↦ rw taken (elim (first_free-Answers used rounds (i + 1)) [
    | inl (none_free, all) ↦
        inl (none_free, taken_from used i taken (λ j p q. all j p (omega arith)))
    | inr (lo, hi, free, below) ↦
        inr (omega arith, omega arith, free, taken_from used i taken below)
  ])
]

-- The answer is the lowest free number in 1..limit: it is free for this client and for the server,
-- and every smaller number is taken. It is 0 exactly where every number in 1..limit is taken.
next_available-least :
    (used running : List ℕ) (limit : ℕ)
    → let r = next_available used running limit in
      ((r ≡ 0) × ((j : ℕ) → 1 ≤ j → j ≤ limit → IsTaken used running j))
      ⊎ ((1 ≤ r)
          × (r ≤ limit)
          × (mem r used ≡ false)
          × (mem r running ≡ false)
          × ((j : ℕ) → 1 ≤ j → j < r → IsTaken used running j))
unfolding next_available
next_available-least used running limit = elim (first_free-Answers (used ++ running) limit 1) [
  | inl (none_free, all) ↦ inl (none_free, λ j p q. rw mem-append at (all j p (omega arith)))
  | inr (lo, hi, free, below) ↦
      let r = first_free (used ++ running) limit 1 in
      inr (
        lo,
        omega arith,
        ground (arith, mem-append r used running),
        ground (arith, mem-append r used running),
        λ j p q. rw mem-append at (below j p q),
      )
]
