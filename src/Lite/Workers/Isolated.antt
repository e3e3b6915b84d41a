-- ===== src/Lite/Workers/Isolated.antt =====
-- A realm is told only sources that it has uploaded.
use vibetop.Base.{
  ℕ, ◌+◌, subst, Bool, ◌||◌, not, Option, none, some, List, [], ◌∷◌, ◌++◌, ltb, leb, length, Text,
  same, same_iff, lookup, remove, AllEntries, AllEntries-put, AllEntries-remove, AllEntries-lookup,
  Option-cases, inl, inr, if_elim, ◌==◌,
}
use vibetop.Lite.Workers.{
  Item, Waiter, Options, Store, Answer, has, remove_entry, collect_entries, collect, found, get,
  tell, settle, within, add, bad_client_id, id_or, put_source, fail, waiting, wait, is_known,
  drop_waiter, time_out,
}
use vibetop.Lite.Workers.Steps.{Operation, puts, fails, waits, times_out, gets, step, run}

module _ (P : Text → Text → Type 0) where
  -- A realm and a source, both uploaded.
  abbrev pub IsOwned : Text → Item → Type 0
  IsOwned id item = P item.physical item.body

  abbrev pub IsAllowed : Text → Option Text → Type 0
  IsAllowed physical none = Unit
  IsAllowed physical (some body) = P physical body

  abbrev pub AllAllowed : List Answer → Type 0
  AllAllowed [] = Unit
  AllAllowed (a ∷ answers) = IsAllowed a.physical a.body × AllAllowed answers

  abbrev pub Uploads : Operation → Type 0
  Uploads (puts fresh physical body client) = P physical body
  Uploads (fails id) = Unit
  Uploads (waits w id) = Unit
  Uploads (times_out w id) = Unit
  Uploads (gets physical id) = Unit

  abbrev pub AllUploads : List (ℕ × Operation) → Type 0
  AllUploads [] = Unit
  AllUploads ((_, op) ∷ ops) = Uploads op × AllUploads ops

  abbrev pub IsSafe : Store × List Answer → Type 0
  IsSafe r = AllEntries IsOwned r.0.entries × AllAllowed r.1

  AllAllowed-append : (a b : List Answer) → AllAllowed a → AllAllowed b → AllAllowed (a ++ b)
  AllAllowed-append [] b p q = q
  AllAllowed-append (x ∷ a) b (h, p) q = (h, AllAllowed-append a b p q)

  remove_entry-AllEntries :
      (id : Text) (s : Store)
      → AllEntries IsOwned s.entries
      → AllEntries IsOwned (remove_entry id s).entries
  unfolding remove_entry
  remove_entry-AllEntries id s a = elim (Option-cases (lookup id s.entries)) [
    | inl absent ↦ rw (absent, remove_entry) a
    | inr (item, there) ↦ rw (there, remove_entry) (AllEntries-remove IsOwned id s.entries a)
  ]

  collect_entries-AllEntries :
      (now : ℕ) (m : List (Text × Item)) (s : Store)
      → AllEntries IsOwned s.entries
      → AllEntries IsOwned (collect_entries now m s).entries
  unfolding collect_entries
  collect_entries-AllEntries now [] s a = a
  collect_entries-AllEntries now ((id, item) ∷ rest) s a = collect_entries-AllEntries now rest _ (
      if_elim (λ (x : Store). AllEntries IsOwned x.entries) (leb item.expires now)
        (λ _. remove_entry-AllEntries id s a) (λ _. a))

  collect-AllEntries :
      (now : ℕ) (s : Store)
      → AllEntries IsOwned s.entries
      → AllEntries IsOwned (collect now s).entries
  unfolding collect
  collect-AllEntries now s a = collect_entries-AllEntries now s.entries s a

  found-IsAllowed :
      (physical id : Text) (s : Store)
      → AllEntries IsOwned s.entries
      → IsAllowed physical (found physical id s)
  unfolding found
  found-IsAllowed physical id s a = elim (Option-cases (lookup id s.entries)) [
    | inl absent ↦ rw (absent, found) tt
    | inr (item, there) ↦
        rw (there, found)
          (if_elim (IsAllowed physical) (same item.physical physical)
            (λ e.
              subst (λ x. P x item.body) ((same_iff item.physical physical).0 e)
                (AllEntries-lookup IsOwned id s.entries a there))
            (λ _. tt))
  ]

  tell-IsSafe :
      (now : ℕ) (id : Text) (ws : List Waiter) (s : Store)
      → AllEntries IsOwned s.entries
      → IsSafe (tell now id ws s)
  unfolding tell get
  tell-IsSafe now id [] s a = (a, tt)
  tell-IsSafe now id (w ∷ ws) s a =
      let b = collect-AllEntries now s a in
      let (later, told) = tell-IsSafe now id ws (collect now s) b in
      (later, (found-IsAllowed w.physical id (collect now s) b, told))

  settle-IsSafe :
      (now : ℕ) (id : Text) (s : Store) → AllEntries IsOwned s.entries → IsSafe (settle now id s)
  unfolding settle
  settle-IsSafe now id s a = elim (Option-cases (lookup id s.waiters)) [
    | inl absent ↦ rw (absent, settle) (a, tt)
    | inr (ws, there) ↦
        rw (there, settle) (tell-IsSafe now id ws (record s { waiters = remove id s.waiters }) a)
  ]

  module _ (o : Options) (is_client_id : Text → Bool) where
    step-IsSafe :
        (now : ℕ) (op : Operation) (s : Store)
        → Uploads op
        → AllEntries IsOwned s.entries
        → IsSafe (step o is_client_id now op s)
    unfolding step put_source add fail wait get time_out
    step-IsSafe now (puts fresh physical body client) s p a =
        let t = collect now s in
        let b = collect-AllEntries now s a in
        let id = id_or o is_client_id client fresh in
        let item : Item = record { physical = physical; body = body; expires = now + o.ttl } in
        let Q : Store × List Answer × Option Text → Type 0 = λ r. IsSafe (r.0, r.1) in
        if_elim Q (bad_client_id o is_client_id client t) (λ _. (b, tt))
          (λ _.
            if_elim Q (within o is_client_id physical body t)
              (λ _. settle-IsSafe now id _ (AllEntries-put IsOwned id item t.entries p b))
              (λ _. (b, tt)))
    step-IsSafe now (fails id) s p a =
        let t = collect now s in
        let b = collect-AllEntries now s a in
        if_elim IsSafe (not (is_client_id id) || has id s.entries) (λ _. (a, tt))
          (λ _. settle-IsSafe now id _ (
            if_elim (λ (x : Store). AllEntries IsOwned x.entries)
              (ltb (length t.failed) o.max_total_entries) (λ _. b) (λ _. b)))
    step-IsSafe now (waits w id) s p a =
        let t = collect now s in
        let b = collect-AllEntries now s a in
        if_elim IsSafe (is_known o is_client_id id (found w.physical id t) t)
          (λ _. (b, (found-IsAllowed w.physical id t b, tt)))
          (λ _.
            if_elim IsSafe (leb o.max_total_entries (waiting t.waiters)) (λ _. (b, (tt, tt)))
              (λ _. (b, tt)))
    step-IsSafe now (times_out w id) s p a = elim (Option-cases (lookup id s.waiters)) [
      | inl absent ↦ rw (absent, time_out) (a, tt)
      | inr (ws, there) ↦
          rw (there, time_out)
            (if_elim IsSafe (length (drop_waiter w.number ws) == length ws) (λ _. (a, tt))
              (λ _. (a, (tt, tt))))
    ]
    step-IsSafe now (gets physical id) s p a = (collect-AllEntries now s a, tt)

    -- What holds of every source that is uploaded, with the realm that uploads it, holds of every source that
    -- a waiter is told, with the realm of the waiter: no realm is told the source of another.
    pub run-IsSafe :
        (ops : List (ℕ × Operation)) (s : Store)
        → AllUploads ops
        → AllEntries IsOwned s.entries
        → IsSafe (run o is_client_id ops s)
    unfolding run
    run-IsSafe [] s p a = (a, tt)
    run-IsSafe ((now, op) ∷ ops) s (p, q) a =
        let r = step o is_client_id now op s in
        let (b, told) = step-IsSafe now op s p a in
        let (c, later) = run-IsSafe ops r.0 q b in
        (c, AllAllowed-append r.1 (run o is_client_id ops r.0).1 told later)
