-- ===== src/Lite/Workers/Told.antt =====
-- Every waiter is told once, or still waits.
use vibetop.Base.{
  ℕ, ◌+◌, ◌≡◌, ◌⊎◌, refl, sym, subst, ◌∙◌, ap, some, List, [], ◌∷◌, ◌++◌, if◌then◌else◌, leb, ◌==◌,
  length, Text, lookup, remove, total, KeysDistinct, KeysDistinct-put, KeysDistinct-remove,
  total-remove, arith, Option-cases, Bool-cases, inl, inr, if_elim,
}
use vibetop.Lite.Workers.{
  Item, Waiter, Store, Answer, remove_entry, collect_entries, collect, get, tell, settle,
  drop_waiter, with_list,
}
use vibetop.Lite.Workers.Steps.{Operation, puts, fails, waits, times_out, gets, total-put}

-- How often a number is told, waits, and has asked.
abbrev pub tally : ℕ → List Answer → ℕ
tally n [] = 0
tally n (a ∷ answers) = (if a.number == n then 1 else 0) + tally n answers

abbrev pub count : ℕ → List Waiter → ℕ
count n [] = 0
count n (w ∷ ws) = (if w.number == n then 1 else 0) + count n ws

abbrev pub queued : ℕ → Store → ℕ
queued n s = total (count n) s.waiters

abbrev pub one : ℕ → Waiter → ℕ
one n w = if w.number == n then 1 else 0

abbrev pub asks : ℕ → Operation → ℕ
asks n (puts fresh physical body client) = 0
asks n (fails id) = 0
asks n (waits w id) = one n w
asks n (times_out w id) = 0
asks n (gets physical id) = 0

abbrev pub asked : ℕ → List (ℕ × Operation) → ℕ
asked n [] = 0
asked n ((_, op) ∷ ops) = asks n op + asked n ops

pub tally-append : (n : ℕ) (a b : List Answer) → tally n (a ++ b) ≡ tally n a + tally n b
tally-append n [] b = omega arith
tally-append n (x ∷ a) b = omega (arith, tally-append n a b)

pub count-append : (n : ℕ) (a b : List Waiter) → count n (a ++ b) ≡ count n a + count n b
count-append n [] b = omega arith
count-append n (x ∷ a) b = omega (arith, count-append n a b)

remove_entry-waiters : (id : Text) (s : Store) → (remove_entry id s).waiters ≡ s.waiters
unfolding remove_entry
remove_entry-waiters id s = elim (Option-cases (lookup id s.entries)) [
  | inl absent ↦ rw (absent, remove_entry) refl
  | inr (item, there) ↦ rw (there, remove_entry) refl
]

collect_entries-waiters :
    (now : ℕ) (m : List (Text × Item)) (s : Store) → (collect_entries now m s).waiters ≡ s.waiters
unfolding collect_entries
collect_entries-waiters now [] s = refl
collect_entries-waiters now ((id, item) ∷ rest) s =
    collect_entries-waiters now rest _
    ∙ if_elim (λ (x : Store). x.waiters ≡ s.waiters) (leb item.expires now)
        (λ _. remove_entry-waiters id s) (λ _. refl)

pub collect-waiters : (now : ℕ) (s : Store) → (collect now s).waiters ≡ s.waiters
unfolding collect
collect-waiters now s = collect_entries-waiters now s.entries s

-- What a step does to a number: it is told and no longer queued, in a store whose lists are under distinct keys.
pub record Keeps (n before : ℕ) (r : Store × List Answer) : Type 0 where
  pub distinct : KeysDistinct r.0.waiters
  pub kept : tally n r.1 + queued n r.0 ≡ before

tell-Keeps :
    (n now : ℕ) (id : Text) (ws : List Waiter) (s : Store)
    → KeysDistinct s.waiters
    → Keeps n (count n ws + queued n s) (tell now id ws s)
unfolding tell get
tell-Keeps n now id [] s d = record { distinct = d; kept = omega arith }
tell-Keeps n now id (w ∷ ws) s d =
    let e = collect-waiters now s in
    let later = tell-Keeps n now id ws (collect now s) (subst KeysDistinct (sym e) d) in
    record { distinct = later.distinct; kept = omega (arith, later.kept, ap (total (count n)) e) }

pub settle-Keeps :
    (n now : ℕ) (id : Text) (s : Store)
    → KeysDistinct s.waiters
    → Keeps n (queued n s) (settle now id s)
unfolding settle
settle-Keeps n now id s d = elim (Option-cases (lookup id s.waiters)) [
  | inl absent ↦ rw (absent, settle) (record { distinct = d; kept = omega arith })
  | inr (ws, there) ↦
      let told =
        tell-Keeps n now id ws (record s { waiters = remove id s.waiters })
          (KeysDistinct-remove id s.waiters d) in
      rw (there, settle)
        (record {
          distinct = told.distinct;
          kept = omega (arith, told.kept, total-remove (count n) id ws s.waiters d there);
        })
]

pub drop_waiter-count :
    (n : ℕ) (w : Waiter) (ws : List Waiter)
    → (length (drop_waiter w.number ws) ≡ length ws)
      ⊎ (count n ws ≡ count n (drop_waiter w.number ws) + one n w)
unfolding drop_waiter
drop_waiter-count n w [] = inl refl
drop_waiter-count n w (v ∷ ws) = elim (drop_waiter-count n w ws) [
  | inl none_there ↦ elim (Bool-cases (v.number == w.number)) [
    | inl hit ↦ inr (ground (arith, hit))
    | inr miss ↦ inl (ground (arith, miss, none_there))
  ]
  | inr there ↦ elim (Bool-cases (v.number == w.number)) [
    | inl hit ↦ inr (ground (arith, hit))
    | inr miss ↦ inr (ground (arith, miss, there))
  ]
]

pub with_list-count :
    (n : ℕ) (id : Text) (less ws : List Waiter) (m : List (Text × List Waiter))
    → KeysDistinct m
    → lookup id m ≡ some ws
    → KeysDistinct (with_list id less m)
      × (count n ws + total (count n) (with_list id less m) ≡ total (count n) m + count n less)
unfolding with_list
with_list-count n id [] ws m d there =
    (KeysDistinct-remove id m d, omega (arith, total-remove (count n) id ws m d there))
with_list-count n id (w ∷ more) ws m d there =
    (KeysDistinct-put id (w ∷ more) m d, total-put (count n) id (w ∷ more) m there)
