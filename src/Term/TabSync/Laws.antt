-- ===== src/Term/TabSync/Laws.antt =====
-- What `reconcile` promises: membership of the shown tabs, their order, and stability.
use vibetop.Base.{
  ℕ, ◌<◌, ◌≡◌, refl, ◌∙◌, ap, Bool, true, false, ◌&&◌, ◌||◌, not, List, [], ◌∷◌, arith, leb, ◌==◌,
  mem, keep, mem-keep, Bool-cases, inl, inr,
}
use vibetop.Term.TabSync.{
  add_key, add_keys, delete_keys, insert_sorted, sort, new_pending, new_closing, reconcile,
}

mem-add_key : (n x : ℕ) (s : List ℕ) → mem n (add_key x s) ≡ (x == n || mem n s)
unfolding add_key
mem-add_key n x s = ground (arith, ap (λ k. mem k s) {x = x} {y = n})

mem-add_keys : (n : ℕ) (ns s : List ℕ) → mem n (add_keys ns s) ≡ (mem n ns || mem n s)
unfolding add_keys
mem-add_keys n [] s = refl
mem-add_keys n (x ∷ ns) s = ground (arith, mem-add_keys n ns (add_key x s), mem-add_key n x s)

mem-insert_sorted : (n x : ℕ) (s : List ℕ) → mem n (insert_sorted x s) ≡ (x == n || mem n s)
unfolding insert_sorted
mem-insert_sorted n x [] = refl
mem-insert_sorted n x (y ∷ s) = ground (arith, mem-insert_sorted n x s)

mem-sort : (n : ℕ) (s : List ℕ) → mem n (sort s) ≡ mem n s
unfolding sort
mem-sort n [] = refl
mem-sort n (x ∷ s) = ground (arith, mem-insert_sorted n x (sort s), mem-sort n s)

-- The keys of an object are distinct.
abbrev IsDistinct : List ℕ → Type 0
IsDistinct [] = Unit
IsDistinct (x ∷ xs) = (mem x xs ≡ false) × IsDistinct xs

-- Strictly ascending: sorted, and no number twice.
abbrev pub IsAscending : List ℕ → Type 0
IsAscending [] = Unit
IsAscending (x ∷ xs) = ((n : ℕ) → mem n xs ≡ true → x < n) × IsAscending xs

add_keys-IsDistinct : (ns s : List ℕ) → IsDistinct s → IsDistinct (add_keys ns s)
unfolding add_keys
add_keys-IsDistinct [] s d = d
add_keys-IsDistinct (x ∷ ns) s d = elim (Bool-cases (mem x s)) [
  | inl old ↦ rw old (add_keys-IsDistinct ns s d)
  | inr new ↦ rw new (add_keys-IsDistinct ns (x ∷ s) (new, d))
]

keep-IsDistinct : (p : ℕ → Bool) (s : List ℕ) → IsDistinct s → IsDistinct (keep p s)
keep-IsDistinct p [] d = tt
keep-IsDistinct p (x ∷ s) d = ground (arith, mem-keep p x s, keep-IsDistinct p s)

insert_sorted-IsAscending :
    (x : ℕ) (s : List ℕ) → mem x s ≡ false → IsAscending s → IsAscending (insert_sorted x s)
unfolding insert_sorted
insert_sorted-IsAscending x [] new a = (λ n h. absurd (cc), tt)
insert_sorted-IsAscending x (y ∷ s) new (above, a) = elim (Bool-cases (leb x y)) [
  | inl le ↦ rw le ((λ n h. ground (arith, above n)), (above, a))
  | inr gt ↦ rw gt (
    (λ n h. ground (arith, above n, mem-insert_sorted n x s)),
    insert_sorted-IsAscending x s (ground arith) a,
  )
]

sort-IsAscending : (s : List ℕ) → IsDistinct s → IsAscending (sort s)
unfolding sort
sort-IsAscending [] d = tt
sort-IsAscending (x ∷ s) (new, d) =
    insert_sorted-IsAscending x (sort s) (mem-sort x s ∙ new) (sort-IsAscending s d)

-- A tab is shown exactly when it runs or was opened here, and was not closed here, whatever the
-- running, pending and closing sets are: the shown set is (running ∪ pending) − closing.
pub mem-desired :
    (n : ℕ) (running pending closing : List ℕ)
    → mem n (reconcile running pending closing).desired
      ≡ ((mem n running || mem n pending) && not (mem n closing))
unfolding reconcile
mem-desired n running pending closing =
    let opened = new_pending running pending closing in
    let closed = new_closing running closing in
    let shown = add_keys opened (add_keys running []) in
    ground (
      arith,
      mem-sort n (delete_keys closed shown),
      mem-keep (λ k. not (mem k closed)) n shown,
      mem-add_keys n opened (add_keys running []),
      mem-add_keys n running [],
      mem-keep (λ k. not (mem k running) && not (mem k closing)) n pending,
      mem-keep (λ k. mem k running) n closing,
    )

-- The shown tabs come in strictly ascending order, each once, also where the server lists a number
-- twice.
desired-IsAscending :
    (running pending closing : List ℕ) → IsAscending (reconcile running pending closing).desired
unfolding reconcile
desired-IsAscending running pending closing =
    let opened = new_pending running pending closing in
    let shown = add_keys opened (add_keys running []) in
    let distinct = add_keys-IsDistinct opened _ (add_keys-IsDistinct running [] tt) in
    sort-IsAscending (delete_keys (new_closing running closing) shown)
      (keep-IsDistinct (λ n. not (mem n (new_closing running closing))) shown distinct)

keep_all : (p : ℕ → Bool) (s : List ℕ) → ((n : ℕ) → mem n s ≡ true → p n ≡ true) → keep p s ≡ s
keep_all p [] h = refl
keep_all p (x ∷ s) h = ground (arith, h x, keep_all p s (λ n m. h n (ground arith)))

new_pending_again :
    (running pending closing : List ℕ)
    → let opened = new_pending running pending closing in
      new_pending running opened (new_closing running closing) ≡ opened
unfolding new_pending new_closing
new_pending_again running pending closing = keep_all _ (new_pending running pending closing) (λ n m.
    ground (
      arith,
      mem-keep (λ k. not (mem k running) && not (mem k closing)) n pending,
      mem-keep (λ k. mem k running) n closing,
    ))

new_closing_again :
    (running closing : List ℕ)
    → new_closing running (new_closing running closing) ≡ new_closing running closing
unfolding new_closing
new_closing_again running closing =
    keep_all _ (new_closing running closing)
      (λ n m. ground (arith, mem-keep (λ k. mem k running) n closing))

-- A second poll that reports the same running set changes nothing: reconciling with the pending
-- and closing sets that `reconcile` returned gives the same tabs and the same two sets.
reconcile_stable :
    (running pending closing : List ℕ)
    → let t = reconcile running pending closing in reconcile running t.pending t.closing ≡ t
unfolding reconcile
reconcile_stable running pending closing =
    cc (new_pending_again running pending closing, new_closing_again running closing)
