-- ===== src/Term/TabSync.antt =====
-- apps/everyday/terminal/lib/tab-sync.js: which terminal tabs a client shows, reconciled with the
-- set of sessions that run on the server. An object that the code uses as a set of numbers is the
-- list of its keys, and `mem` is its key test.
pub mod Laws
pub mod Slots
mod Tests
use vibetop.Base.{
  ℕ, zero, suc, ◌+◌, Bool, true, false, ◌&&◌, not, List, [], ◌∷◌, ◌++◌, if◌then◌else◌, leb, ◌==◌,
  mem, keep,
}

-- `set[n] = true`
pub add_key : ℕ → List ℕ → List ℕ
add_key n s = if mem n s then s else n ∷ s

pub add_keys : List ℕ → List ℕ → List ℕ
unfolding add_key
add_keys [] s = s
add_keys (n ∷ ns) s = add_keys ns (add_key n s)

-- `delete set[n]`, once for each key of the first list
pub delete_keys : List ℕ → List ℕ → List ℕ
delete_keys gone s = keep (λ n. not (mem n gone)) s

-- `.sort(function (a, b) { return a - b; })`
insert_sorted : ℕ → List ℕ → List ℕ
insert_sorted n [] = n ∷ []
insert_sorted n (x ∷ xs) = let rest = insert_sorted n xs in if leb n x then n ∷ x ∷ xs else x ∷ rest

pub sort : List ℕ → List ℕ
unfolding insert_sorted
sort [] = []
sort (x ∷ xs) = insert_sorted x (sort xs)

pub record Tabs : Type 0 where
  pub desired : List ℕ
  pub pending : List ℕ
  pub closing : List ℕ

-- A tab that is opened here and neither confirmed nor closed here.
pub new_pending : List ℕ → List ℕ → List ℕ → List ℕ
new_pending running pending closing = keep (λ k. not (mem k running) && not (mem k closing)) pending

-- A tab that is closed here and still running.
pub new_closing : List ℕ → List ℕ → List ℕ
new_closing running closing = keep (λ k. mem k running) closing

pub reconcile : List ℕ → List ℕ → List ℕ → Tabs
unfolding add_keys delete_keys sort new_pending new_closing
reconcile running pending closing =
    let opened = new_pending running pending closing in
    let closed = new_closing running closing in
    record {
      desired = sort (delete_keys closed (add_keys opened (add_keys running [])));
      pending = opened;
      closing = closed;
    }

-- The loop of `nextAvailable` from `i`, with `rounds` numbers left up to the maximum.
pub first_free : List ℕ → ℕ → ℕ → ℕ
first_free used zero i = 0
first_free used (suc rounds) i =
    let next = first_free used rounds (i + 1) in if mem i used then next else i

pub next_available : List ℕ → List ℕ → ℕ → ℕ
unfolding first_free
next_available used running limit = first_free (used ++ running) limit 1
