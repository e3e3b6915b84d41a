-- ===== src/Lite/Workers/Steps.antt =====
-- Uploads, failures, waits and their timers in any order: the limits hold.
use vibetop.Base.{
  ℕ, ◌+◌, ◌≤◌, ◌≡◌, ◌⊎◌, refl, ap, Bool, true, false, ◌||◌, not, Option, none, some, List, [], ◌∷◌,
  ◌++◌, ltb, leb, ◌==◌, length, length-append, Text, lookup, put, total, KeysDistinct,
  KeysDistinct-put, KeysDistinct-remove, total-put_new, total-remove, length-put, arith,
  Option-cases, inl, inr, if_elim, same_iff,
}
use vibetop.Lite.Workers.{
  Item, Waiter, Options, Store, Answer, has, collect, found, get, size, within, add, bad_client_id,
  id_or, put_source, fail, waiting, or_empty, list_of, wait, is_known, drop_waiter, with_list,
  time_out,
}
use vibetop.Lite.Workers.Bounds.{
  IsBounded, bytes_of, one_of, own-bytes, own-length, collect-IsBounded, waiters-IsBounded,
  settle-IsBounded,
}

pub data Operation : Type 0 where
  puts : (fresh physical body : Text) → (client : Option Text) → Operation
  fails : Text → Operation
  waits times_out : Waiter → Text → Operation
  gets : (physical id : Text) → Operation

-- A write to a key, where a value with another measure was or none.
pub total-put {ℓ} :
    {V : Type ℓ} (f : V → ℕ) (k : Text) (v : V) (m : List (Text × V)) {u : V}
    → lookup k m ≡ some u
    → f u + total f (put k v m) ≡ total f m + f v
unfolding put lookup
total-put f k v [] {u} h = absurd (cc)
total-put f k v ((j, w) ∷ m) {u} h = ground (arith, total-put f k v m {u = u}, ap f {x = w} {y = u})

module _ (o : Options) (is_client_id : Text → Bool) where
  unfoldable pub step : ℕ → Operation → Store → Store × List Answer
  unfolding put_source fail wait time_out get
  step now (puts fresh physical body client) s =
      let (t, answers, _) = put_source o is_client_id now fresh physical body client s in
      (t, answers)
  step now (fails id) s = fail o is_client_id now id s
  step now (waits w id) s = wait o is_client_id now w id s
  step now (times_out w id) s = time_out w id s
  step now (gets physical id) s = let (t, _) = get now physical id s in (t, [])

  unfoldable pub run : List (ℕ × Operation) → Store → Store × List Answer
  unfolding step
  run [] s = (s, [])
  run ((now, op) ∷ ops) s =
      let (t, answers) = step now op s in let (u, later) = run ops t in (u, answers ++ later)

  add-IsBounded :
      (now : ℕ) (physical body id : Text) (s : Store)
      → IsBounded o s
      → lookup id s.entries ≡ none
      → within o is_client_id physical body s ≡ true
      → IsBounded o (add o is_client_id now physical body id s).0
  unfolding add within
  add-IsBounded now physical body id s ok new fits =
      let item : Item = record { physical = physical; body = body; expires = now + o.ttl } in
      settle-IsBounded o now id _ (record {
        distinct = KeysDistinct-put id item s.entries ok.distinct;
        counted = omega (arith, ok.counted, total-put_new size id item s.entries new);
        all_bytes = ground (arith, fits);
        all_entries = ground (arith, fits, length-put id item s.entries);
        own_bytes = λ p. ground (
          arith,
          fits,
          own-bytes physical s.entries,
          ok.own_bytes p,
          total-put_new (bytes_of p) id item s.entries new,
          ap (λ q. total (bytes_of q) s.entries) {x = physical} {y = p},
          same_iff physical p,
        );
        own_entries = λ p. ground (
          arith,
          fits,
          own-length physical s.entries,
          ok.own_entries p,
          total-put_new (one_of p) id item s.entries new,
          ap (λ q. total (one_of q) s.entries) {x = physical} {y = p},
          same_iff physical p,
        );
        all_failed = ok.all_failed;
        waiters_distinct = ok.waiters_distinct;
        all_waiting = ok.all_waiting;
      })

  absent_id :
      (fresh : Text) (c : Option Text) (t : Store)
      → (c ≡ none → lookup fresh t.entries ≡ none)
      → bad_client_id o is_client_id c t ≡ false
      → lookup (id_or o is_client_id c fresh) t.entries ≡ none
  absent_id fresh none t n good = n refl
  absent_id fresh (some id) t n good = ground (arith, good)

  -- The random identifier is of no entry.
  abbrev pub IsFresh : ℕ → Operation → Store → Type 0
  IsFresh now (puts fresh physical body client) s =
      client ≡ none → lookup fresh (collect now s).entries ≡ none
  IsFresh now (fails id) s = Unit
  IsFresh now (waits w id) s = Unit
  IsFresh now (times_out w id) s = Unit
  IsFresh now (gets physical id) s = Unit

  put_source-IsBounded :
      (now : ℕ) (fresh physical body : Text) (client : Option Text) (s : Store)
      → IsBounded o s
      → IsFresh now (puts fresh physical body client) s
      → IsBounded o (put_source o is_client_id now fresh physical body client s).0
  unfolding put_source
  put_source-IsBounded now fresh physical body client s ok new =
      let t = collect now s in
      let fine = collect-IsBounded o now s ok in
      if_elim (λ (r : Store × List Answer × Option Text). IsBounded o r.0)
        (bad_client_id o is_client_id client t) (λ _. fine)
        (λ good.
          if_elim (λ (r : Store × List Answer × Option Text). IsBounded o r.0)
            (within o is_client_id physical body t)
            (λ fits.
              add-IsBounded now physical body (id_or o is_client_id client fresh) t fine
                (absent_id fresh client t new good) fits)
            (λ _. fine))

  fail-IsBounded :
      (now : ℕ) (id : Text) (s : Store)
      → IsBounded o s
      → IsBounded o (fail o is_client_id now id s).0
  unfolding fail
  fail-IsBounded now id s ok =
      let t = collect now s in
      let fine = collect-IsBounded o now s ok in
      if_elim (λ (r : Store × List Answer). IsBounded o r.0)
        (not (is_client_id id) || has id s.entries) (λ _. ok)
        (λ _. settle-IsBounded o now id _ (
          if_elim (IsBounded o) (ltb (length t.failed) o.max_total_entries)
            (λ room. noted t fine room) (λ _. fine)))
    where
      noted :
          (t : Store)
          → IsBounded o t
          → ltb (length t.failed) o.max_total_entries ≡ true
          → IsBounded o (record t { failed = put id (now + o.ttl) t.failed })
      noted t fine room = record {
        distinct = fine.distinct;
        counted = fine.counted;
        all_bytes = fine.all_bytes;
        all_entries = fine.all_entries;
        own_bytes = fine.own_bytes;
        own_entries = fine.own_entries;
        all_failed = ground (arith, room, length-put id (now + o.ttl) t.failed);
        waiters_distinct = fine.waiters_distinct;
        all_waiting = fine.all_waiting;
      }

  -- One more waiter at the end of its list.
  pub waiting-put :
      (id : Text) (w : Waiter) (m : List (Text × List Waiter))
      → waiting (put id (list_of id m ++ w ∷ []) m) ≡ waiting m + 1
  waiting-put id w m = longer (Option-cases (lookup id m))
    where
      longer :
          (lookup id m ≡ none) ⊎ ((ws : List Waiter) × (lookup id m ≡ some ws))
          → waiting (put id (list_of id m ++ w ∷ []) m) ≡ waiting m + 1
      longer (inl absent) =
          let v : list_of id m ++ w ∷ [] ≡ w ∷ [] = ap (λ x. or_empty x ++ w ∷ []) absent in
          omega (
            arith,
            ap length v,
            total-put_new (λ (x : List Waiter). length x) id (list_of id m ++ w ∷ []) m absent,
          )
      longer (inr (ws, there)) =
          let v : list_of id m ≡ ws = ap or_empty there in
          omega (
            arith,
            ap length v,
            length-append (list_of id m) (w ∷ []),
            total-put (λ (x : List Waiter). length x) id (list_of id m ++ w ∷ []) m there,
          )

  wait-IsBounded :
      (now : ℕ) (w : Waiter) (id : Text) (s : Store)
      → IsBounded o s
      → IsBounded o (wait o is_client_id now w id s).0
  unfolding wait get
  wait-IsBounded now w id s ok =
      let t = collect now s in
      let fine = collect-IsBounded o now s ok in
      if_elim (λ (r : Store × List Answer). IsBounded o r.0)
        (is_known o is_client_id id (found w.physical id t) t) (λ _. fine)
        (λ _.
          if_elim (λ (r : Store × List Answer). IsBounded o r.0)
            (leb o.max_total_entries (waiting t.waiters)) (λ _. fine)
            (λ room.
              waiters-IsBounded o t _ fine
                (KeysDistinct-put id (list_of id t.waiters ++ w ∷ []) t.waiters
                  fine.waiters_distinct)
                (ground (arith, room, waiting-put id w t.waiters))))

  drop_waiter-length : (n : ℕ) (ws : List Waiter) → length (drop_waiter n ws) ≤ length ws
  unfolding drop_waiter
  drop_waiter-length n [] = omega arith
  drop_waiter-length n (w ∷ ws) = ground (arith, drop_waiter-length n ws)

  with_list-few :
      (id : Text) (less ws : List Waiter) (m : List (Text × List Waiter))
      → KeysDistinct m
      → lookup id m ≡ some ws
      → length less ≤ length ws
      → KeysDistinct (with_list id less m) × (waiting (with_list id less m) ≤ waiting m)
  unfolding with_list
  with_list-few id [] ws m d there h = (
    KeysDistinct-remove id m d,
    omega (arith, total-remove (λ (x : List Waiter). length x) id ws m d there),
  )
  with_list-few id (w ∷ more) ws m d there h = (
    KeysDistinct-put id (w ∷ more) m d,
    omega (arith, h, total-put (λ (x : List Waiter). length x) id (w ∷ more) m there),
  )

  time_out-IsBounded :
      (w : Waiter) (id : Text) (s : Store) → IsBounded o s → IsBounded o (time_out w id s).0
  unfolding time_out
  time_out-IsBounded w id s ok = times (Option-cases (lookup id s.waiters))
    where
      times :
          (lookup id s.waiters ≡ none) ⊎ ((ws : List Waiter) × (lookup id s.waiters ≡ some ws))
          → IsBounded o (time_out w id s).0
      times (inl absent) = rw (absent, time_out) ok
      times (inr (ws, there)) =
          let less = drop_waiter w.number ws in
          let (d, few) =
            with_list-few id less ws s.waiters ok.waiters_distinct there
              (drop_waiter-length w.number ws) in
          rw (there, time_out)
            (if_elim (λ (r : Store × List Answer). IsBounded o r.0) (length less == length ws)
              (λ _. ok)
              (λ _.
                waiters-IsBounded o s (with_list id less s.waiters) ok d
                  (omega (arith, few, ok.all_waiting))))

  abbrev pub AllFresh : List (ℕ × Operation) → Store → Type 0
  AllFresh [] s = Unit
  AllFresh ((now, op) ∷ ops) s = IsFresh now op s × AllFresh ops (step now op s).0

  step-IsBounded :
      (now : ℕ) (op : Operation) (s : Store)
      → IsBounded o s
      → IsFresh now op s
      → IsBounded o (step now op s).0
  unfolding step get
  step-IsBounded now (puts fresh physical body client) s ok new =
      put_source-IsBounded now fresh physical body client s ok new
  step-IsBounded now (fails id) s ok new = fail-IsBounded now id s ok
  step-IsBounded now (waits w id) s ok new = wait-IsBounded now w id s ok
  step-IsBounded now (times_out w id) s ok new = time_out-IsBounded w id s ok
  step-IsBounded now (gets physical id) s ok new = collect-IsBounded o now s ok

  -- After any uploads, failures, waits, timers and reads, at any times, where no random identifier is that of an
  -- entry: the byte count is that of the sources, there are no more bytes and entries than the limits, in all and
  -- for every realm, and no more failures and waiters than the limit.
  pub run-IsBounded :
      (ops : List (ℕ × Operation)) (s : Store)
      → IsBounded o s
      → AllFresh ops s
      → IsBounded o (run ops s).0
  unfolding run
  run-IsBounded [] s ok f = ok
  run-IsBounded ((now, op) ∷ ops) s ok (new, f) =
      run-IsBounded ops (step now op s).0 (step-IsBounded now op s ok new) f
