-- ===== src/Lite/Workers/Once.antt =====
-- Every waiter is told once, or still waits: the operations in any order.
use vibetop.Base.{
  ℕ, ◌+◌, ◌≡◌, sym, subst, ap, Bool, ◌||◌, not, Option, List, [], ◌∷◌, ◌++◌, ltb, leb, ◌==◌, length,
  Text, lookup, put, total, KeysDistinct, KeysDistinct-put, total-put_new, arith, Option-cases, inl,
  inr, if_elim,
}
use vibetop.Lite.Workers.{
  Waiter, Options, Store, Answer, has, collect, found, get, settle, within, add, bad_client_id,
  id_or, put_source, fail, waiting, or_empty, list_of, wait, is_known, drop_waiter, time_out,
}
use vibetop.Lite.Workers.Steps.{
  Operation, puts, fails, waits, times_out, gets, step, run, total-put,
}
use vibetop.Lite.Workers.Told.{
  one, tally, count, queued, asks, asked, tally-append, count-append, collect-waiters, Keeps,
  settle-Keeps, drop_waiter-count, with_list-count,
}

module _ (o : Options) (is_client_id : Text → Bool) (n : ℕ) where
  collected :
      (now : ℕ) (s : Store) → KeysDistinct s.waiters → Keeps n (queued n s) (collect now s, [])
  collected now s d =
      let e = collect-waiters now s in
      record {
        distinct = subst KeysDistinct (sym e) d;
        kept = omega (arith, ap (total (count n)) e);
      }

  put_source-Keeps :
      (now : ℕ) (fresh physical body : Text) (client : Option Text) (s : Store)
      → KeysDistinct s.waiters
      → Keeps n (queued n s) (step o is_client_id now (puts fresh physical body client) s)
  unfolding step put_source add
  put_source-Keeps now fresh physical body client s d =
      let t = collect now s in
      let same_waiters = collected now s d in
      let P : Store × List Answer × Option Text → Type 0 = λ r. Keeps n (queued n s) (r.0, r.1) in
      if_elim P (bad_client_id o is_client_id client t) (λ _. same_waiters)
        (λ _.
          if_elim P (within o is_client_id physical body t) (λ _. added t same_waiters)
            (λ _. same_waiters))
    where
      added :
          (t : Store)
          → Keeps n (queued n s) (t, [])
          → Keeps n
              (queued n s)
              (add o is_client_id now physical body (id_or o is_client_id client fresh) t)
      added t now_same =
          let id = id_or o is_client_id client fresh in
          let new : Store = record t {
            entries =
                put id (record { physical = physical; body = body; expires = now + o.ttl })
                  t.entries;
            bytes = t.bytes + length body;
          } in
          let told = settle-Keeps n now id new now_same.distinct in
          record { distinct = told.distinct; kept = omega (arith, told.kept, now_same.kept) }

  fail-Keeps :
      (now : ℕ) (id : Text) (s : Store)
      → KeysDistinct s.waiters
      → Keeps n (queued n s) (fail o is_client_id now id s)
  unfolding fail
  fail-Keeps now id s d =
      let t = collect now s in
      let same_waiters = collected now s d in
      if_elim (Keeps n (queued n s)) (not (is_client_id id) || has id s.entries)
        (λ _. record { distinct = d; kept = omega arith })
        (λ _. noted _ (
          if_elim (λ x. Keeps n (queued n s) (x, [])) (ltb (length t.failed) o.max_total_entries)
            (λ _. record { distinct = same_waiters.distinct; kept = same_waiters.kept })
            (λ _. same_waiters)))
    where
      noted : (t : Store) → Keeps n (queued n s) (t, []) → Keeps n (queued n s) (settle now id t)
      noted t k =
          let told = settle-Keeps n now id t k.distinct in
          record { distinct = told.distinct; kept = omega (arith, told.kept, k.kept) }

  queued-put :
      (id : Text) (w : Waiter) (m : List (Text × List Waiter))
      → total (count n) (put id (list_of id m ++ w ∷ []) m) ≡ total (count n) m + one n w
  queued-put id w m = elim (Option-cases (lookup id m)) [
    | inl absent ↦
        let v : list_of id m ++ w ∷ [] ≡ w ∷ [] = ap (λ x. or_empty x ++ w ∷ []) absent in
        omega (arith, ap (count n) v, total-put_new (count n) id (list_of id m ++ w ∷ []) m absent)
    | inr (ws, there) ↦
        let v : list_of id m ≡ ws = ap or_empty there in
        omega (
          arith,
          ap (count n) v,
          count-append n (list_of id m) (w ∷ []),
          total-put (count n) id (list_of id m ++ w ∷ []) m there,
        )
  ]

  wait-Keeps :
      (now : ℕ) (w : Waiter) (id : Text) (s : Store)
      → KeysDistinct s.waiters
      → Keeps n (queued n s + one n w) (wait o is_client_id now w id s)
  unfolding wait get
  wait-Keeps now w id s d =
      let t = collect now s in
      let same_waiters = collected now s d in
      if_elim (Keeps n (queued n s + one n w))
        (is_known o is_client_id id (found w.physical id t) t)
        (λ _. record { distinct = same_waiters.distinct; kept = omega (arith, same_waiters.kept) })
        (λ _.
          if_elim (Keeps n (queued n s + one n w)) (leb o.max_total_entries (waiting t.waiters))
            (λ _. record {
              distinct = same_waiters.distinct;
              kept = omega (arith, same_waiters.kept);
            })
            (λ _. record {
              distinct =
                  KeysDistinct-put id (list_of id t.waiters ++ w ∷ []) t.waiters
                    same_waiters.distinct;
              kept = omega (arith, same_waiters.kept, queued-put id w t.waiters);
            }))

  time_out-Keeps :
      (w : Waiter) (id : Text) (s : Store)
      → KeysDistinct s.waiters
      → Keeps n (queued n s) (time_out w id s)
  unfolding time_out
  time_out-Keeps w id s d = elim (Option-cases (lookup id s.waiters)) [
    | inl absent ↦ rw (absent, time_out) (record { distinct = d; kept = omega arith })
    | inr (ws, there) ↦
        let less = drop_waiter w.number ws in
        let (e, k) = with_list-count n id less ws s.waiters d there in
        rw (there, time_out)
          (if_elim (Keeps n (queued n s)) (length less == length ws)
            (λ _. record { distinct = d; kept = omega arith })
            (λ gone. record {
              distinct = e;
              kept = ground (arith, gone, k, drop_waiter-count n w ws);
            }))
  ]

  step-Keeps :
      (now : ℕ) (op : Operation) (s : Store)
      → KeysDistinct s.waiters
      → Keeps n (queued n s + asks n op) (step o is_client_id now op s)
  unfolding step get
  step-Keeps now (puts fresh physical body client) s d =
      let k = put_source-Keeps now fresh physical body client s d in
      record { distinct = k.distinct; kept = omega (arith, k.kept) }
  step-Keeps now (fails id) s d =
      let k = fail-Keeps now id s d in
      record { distinct = k.distinct; kept = omega (arith, k.kept) }
  step-Keeps now (waits w id) s d = wait-Keeps now w id s d
  step-Keeps now (times_out w id) s d =
      let k = time_out-Keeps w id s d in
      record { distinct = k.distinct; kept = omega (arith, k.kept) }
  step-Keeps now (gets physical id) s d =
      let k = collected now s d in record { distinct = k.distinct; kept = omega (arith, k.kept) }

  run-Keeps :
      (ops : List (ℕ × Operation)) (s : Store)
      → KeysDistinct s.waiters
      → Keeps n (queued n s + asked n ops) (run o is_client_id ops s)
  unfolding run
  run-Keeps [] s d = record { distinct = d; kept = omega arith }
  run-Keeps ((now, op) ∷ ops) s d =
      let r = step o is_client_id now op s in
      let first = step-Keeps now op s d in
      let later = run-Keeps ops r.0 first.distinct in
      record {
        distinct = later.distinct;
        kept =
            omega
              (arith, first.kept, later.kept, tally-append n r.1 (run o is_client_id ops r.0).1);
      }

  -- Whatever happens in whatever order, a waiter is told exactly as often as it has asked and does not wait any more: none is
  -- told twice, and none is forgotten.
  pub tally-run :
      (ops : List (ℕ × Operation)) (s : Store)
      → KeysDistinct s.waiters
      → tally n (run o is_client_id ops s).1 + queued n (run o is_client_id ops s).0
        ≡ queued n s + asked n ops
  tally-run ops s d = (run-Keeps ops s d).kept
