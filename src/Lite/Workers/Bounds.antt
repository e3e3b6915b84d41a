-- ===== src/Lite/Workers/Bounds.antt =====
-- The accounts and the limits of the store.
use vibetop.Base.{
  ℕ, ◌≤◌, ◌≡◌, ◌⊎◌, refl, not, none, some, List, [], ◌∷◌, if◌then◌else◌, leb, length, length-keep,
  Text, same, lookup, remove, total, KeysDistinct, KeysDistinct-remove, total-remove, length-remove,
  arith, Option-cases, inl, inr, if_elim,
}
use vibetop.Lite.Workers.{
  Item, Waiter, Options, Store, remove_entry, collect_entries, collect, get, tell, settle, own,
  size, waiting,
}

-- What one item adds to the bytes and to the number of a realm.
abbrev pub bytes_of : Text → Item → ℕ
bytes_of physical item = if same item.physical physical then length item.body else 0

abbrev pub one_of : Text → Item → ℕ
one_of physical item = if same item.physical physical then 1 else 0

pub own-bytes :
    (physical : Text) (m : List (Text × Item))
    → total size (own physical m) ≡ total (bytes_of physical) m
own-bytes physical [] = refl
own-bytes physical ((k, item) ∷ m) = ground (arith, own-bytes physical m)

pub own-length :
    (physical : Text) (m : List (Text × Item)) → length (own physical m) ≡ total (one_of physical) m
own-length physical [] = refl
own-length physical ((k, item) ∷ m) = ground (arith, own-length physical m)

-- The byte count is that of the sources, and the limits hold, in all and for every realm.
pub record IsBounded (o : Options) (s : Store) : Type 0 where
  pub distinct : KeysDistinct s.entries
  pub counted : s.bytes ≡ total size s.entries
  pub all_bytes : s.bytes ≤ o.max_total_bytes
  pub all_entries : length s.entries ≤ o.max_total_entries
  pub own_bytes : (physical : Text) → total (bytes_of physical) s.entries ≤ o.max_bytes
  pub own_entries : (physical : Text) → total (one_of physical) s.entries ≤ o.max_entries
  pub all_failed : length s.failed ≤ o.max_total_entries
  pub waiters_distinct : KeysDistinct s.waiters
  pub all_waiting : waiting s.waiters ≤ o.max_total_entries

remove_entry-IsBounded :
    (o : Options) (id : Text) (s : Store) → IsBounded o s → IsBounded o (remove_entry id s)
unfolding remove_entry
remove_entry-IsBounded o id s ok = removes (Option-cases (lookup id s.entries))
  where
    removes :
        (lookup id s.entries ≡ none) ⊎ ((item : Item) × (lookup id s.entries ≡ some item))
        → IsBounded o (remove_entry id s)
    removes (inl absent) = rw (absent, remove_entry) ok
    removes (inr (item, there)) =
        rw (there, remove_entry)
          (record {
            distinct = KeysDistinct-remove id s.entries ok.distinct;
            counted =
                omega (arith, ok.counted, total-remove size id item s.entries ok.distinct there);
            all_bytes = omega (arith, ok.all_bytes);
            all_entries = omega (arith, ok.all_entries, length-remove id s.entries);
            own_bytes = λ p. omega (
              arith,
              ok.own_bytes p,
              total-remove (bytes_of p) id item s.entries ok.distinct there,
            );
            own_entries = λ p. omega (
              arith,
              ok.own_entries p,
              total-remove (one_of p) id item s.entries ok.distinct there,
            );
            all_failed = ok.all_failed;
            waiters_distinct = ok.waiters_distinct;
            all_waiting = ok.all_waiting;
          })

collect_entries-IsBounded :
    (o : Options) (now : ℕ) (m : List (Text × Item)) (s : Store)
    → IsBounded o s
    → IsBounded o (collect_entries now m s)
unfolding collect_entries
collect_entries-IsBounded o now [] s ok = ok
collect_entries-IsBounded o now ((id, item) ∷ rest) s ok =
    collect_entries-IsBounded o now rest _ (
      if_elim (IsBounded o) (leb item.expires now) (λ _. remove_entry-IsBounded o id s ok)
        (λ _. ok))

pub collect-IsBounded :
    (o : Options) (now : ℕ) (s : Store) → IsBounded o s → IsBounded o (collect now s)
unfolding collect
collect-IsBounded o now s ok =
    let t = collect_entries now s.entries s in
    let fine = collect_entries-IsBounded o now s.entries s ok in
    record {
      distinct = fine.distinct;
      counted = fine.counted;
      all_bytes = fine.all_bytes;
      all_entries = fine.all_entries;
      own_bytes = fine.own_bytes;
      own_entries = fine.own_entries;
      all_failed =
          omega
            (arith, fine.all_failed, length-keep (λ (e : Text × ℕ). not (leb e.1 now)) t.failed);
      waiters_distinct = fine.waiters_distinct;
      all_waiting = fine.all_waiting;
    }

tell-IsBounded :
    (o : Options) (now : ℕ) (id : Text) (ws : List Waiter) (s : Store)
    → IsBounded o s
    → IsBounded o (tell now id ws s).0
unfolding tell get
tell-IsBounded o now id [] s ok = ok
tell-IsBounded o now id (w ∷ ws) s ok =
    tell-IsBounded o now id ws (collect now s) (collect-IsBounded o now s ok)

-- Fewer waiters.
pub waiters-IsBounded :
    (o : Options) (s : Store) (ws : List (Text × List Waiter))
    → IsBounded o s
    → KeysDistinct ws
    → waiting ws ≤ o.max_total_entries
    → IsBounded o (record s { waiters = ws })
waiters-IsBounded o s ws ok d few = record {
  distinct = ok.distinct;
  counted = ok.counted;
  all_bytes = ok.all_bytes;
  all_entries = ok.all_entries;
  own_bytes = ok.own_bytes;
  own_entries = ok.own_entries;
  all_failed = ok.all_failed;
  waiters_distinct = d;
  all_waiting = few;
}

pub settle-IsBounded :
    (o : Options) (now : ℕ) (id : Text) (s : Store)
    → IsBounded o s
    → IsBounded o (settle now id s).0
unfolding settle
settle-IsBounded o now id s ok = settles (Option-cases (lookup id s.waiters))
  where
    settles :
        (lookup id s.waiters ≡ none) ⊎ ((ws : List Waiter) × (lookup id s.waiters ≡ some ws))
        → IsBounded o (settle now id s).0
    settles (inl absent) = rw (absent, settle) ok
    settles (inr (ws, there)) =
        rw (there, settle)
          (tell-IsBounded o now id ws _ (
            waiters-IsBounded o s (remove id s.waiters) ok
              (KeysDistinct-remove id s.waiters ok.waiters_distinct)
              (omega (
                arith,
                ok.all_waiting,
                total-remove (λ (x : List Waiter). length x) id ws s.waiters ok.waiters_distinct
                    there,
              ))))
