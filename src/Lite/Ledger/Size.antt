-- ===== src/Lite/Ledger/Size.antt =====
-- How many lanes there can be, and which requests reach the browser at all.
use vibetop.Base.{
  ℕ, ◌+◌, ◌≤◌, ◌≡◌, refl, ◌∙◌, ap, Option, none, some, List, [], ◌∷◌, ◌++◌, ◌⊎◌, inl, inr, ◌==◌,
  ==_iff, arith, Text, length, lookup, put, length-put_old, length-keep, if_elim,
}
use vibetop.Lite.Ledger.{
  Body, Call, perform, Answer, Outcome, Lane, Ledger, Options, Request, is_valid, live, collect,
  max_lanes, open_lane, new_lane, run_lane, run_opened, run_found, run,
}
use vibetop.Lite.Ledger.Steps.{
  performs, performs-append, performs-collect, renewed, Ran, refused, changed, retried, stale,
  moved, executed, run_lane-Ran,
}
use vibetop.Lite.Ledger.Evict.{OnSome, Opened, open_lane-Opened}

-- What may be sent: nothing, or the one command of a request that carries the number after the
-- lane's last one and comes from its owner.
abbrev pub SendsNext : Request → Option Text → Option Lane → Ledger → Ledger → Type 0
SendsNext r owner none s t =
    (performs t.calls ≡ performs s.calls)
    ⊎ ((r.operation ≡ 1) × (performs t.calls ≡ performs s.calls ++ perform r.command r.body ∷ []))
SendsNext r owner (some lane) s t =
    (performs t.calls ≡ performs s.calls)
    ⊎ ((lane.owner ≡ owner)
        × (r.operation ≡ lane.operation + 1)
        × (performs t.calls ≡ performs s.calls ++ perform r.command r.body ∷ []))

-- The bound on the lanes, and what a request may send, for the states before and after.
abbrev Bounded : Request → Option Text → Option Lane → Ledger → Ledger → Type 0
Bounded r owner found s t = (length t.lanes ≤ max_lanes) × SendsNext r owner found s t

module _ (answer : List Call → Text → Body → Answer) (digest : Text → Body → Text) where
  Ran-length :
      (now : ℕ) (o : Options) (r : Request) (owner : Option Text) (lane : Lane) (s : Ledger)
      (x : Ledger × Outcome) (n : ℕ)
      → Ran answer digest now o r owner lane s x
      → ((l : Lane) → length (put r.client_id l s.lanes) ≤ n)
      → length s.lanes ≤ n
      → length x.0.lanes ≤ n
  Ran-length now o r owner lane s x n (refused _) p h = h
  Ran-length now o r owner lane s x n (changed _ _) p h = p (renewed now o lane)
  Ran-length now o r owner lane s x n (retried _ _ _) p h = p (renewed now o lane)
  Ran-length now o r owner lane s x n (stale _ _) p h = p (renewed now o lane)
  Ran-length now o r owner lane s x n (moved _) p h = p (renewed now o lane)
  Ran-length now o r owner lane s x n (executed _ _) p h = p _

  Ran-SendsNext :
      (now : ℕ) (o : Options) (r : Request) (owner : Option Text) (lane : Lane) (s : Ledger)
      (x : Ledger × Outcome)
      → Ran answer digest now o r owner lane s x
      → SendsNext r owner (some lane) s x.0
  Ran-SendsNext now o r owner lane s x (refused _) = inl refl
  Ran-SendsNext now o r owner lane s x (changed _ _) = inl refl
  Ran-SendsNext now o r owner lane s x (retried _ _ _) = inl refl
  Ran-SendsNext now o r owner lane s x (stale _ _) = inl refl
  Ran-SendsNext now o r owner lane s x (moved _) = inl refl
  Ran-SendsNext now o r owner lane s x (executed own op) =
      inr (own, op, performs-append s.calls (perform r.command r.body ∷ []))

  -- A request to a lane that is there: the number of lanes, and what is sent.
  run_lane_lem :
      (now : ℕ) (o : Options) (r : Request) (owner : Option Text) (lane : Lane) (s : Ledger)
      → lookup r.client_id s.lanes ≡ some lane
      → length s.lanes ≤ max_lanes
      → let t = (run_lane answer digest now o r owner lane s).0 in
        (length t.lanes ≤ max_lanes) × SendsNext r owner (some lane) s t
  run_lane_lem now o r owner lane s found h =
      let ran = run_lane-Ran answer digest now o r owner lane s in
      (
        Ran-length now o r owner lane s _ max_lanes ran
            (λ l. rw (length-put_old r.client_id l s.lanes found) h) h,
        Ran-SendsNext now o r owner lane s _ ran,
      )

  run_opened_lem :
      (now : ℕ) (o : Options) (r : Request) (owner : Option Text) (t : Option Ledger) (s : Ledger)
      → OnSome (Opened r owner s) t
      → r.operation ≡ 1
      → length s.lanes ≤ max_lanes
      → let u = (run_opened answer digest now o r owner t s).0 in
        (length u.lanes ≤ max_lanes) × SendsNext r owner none s u
  unfolding run_opened
  run_opened_lem now o r owner none s w one h = (h, inl refl)
  run_opened_lem now o r owner (some t) s (small, quiet, found) one h =
      let (few, sends) = run_lane_lem now o r owner (new_lane r owner) t found small in
      (few, sent (run_lane answer digest now o r owner (new_lane r owner) t).0 sends)
    where
      sent :
          (u : Ledger)
          → SendsNext r owner (some (new_lane r owner)) t u
          → SendsNext r owner none s u
      sent u (inl same_calls) = inl (same_calls ∙ quiet)
      sent u (inr (_, _, more)) =
          inr (one, more ∙ ap (λ cs. cs ++ perform r.command r.body ∷ []) quiet)

  run_found_lem :
      (now : ℕ) (o : Options) (r : Request) (owner : Option Text) (found : Option Lane) (s : Ledger)
      → lookup r.client_id s.lanes ≡ found
      → length s.lanes ≤ max_lanes
      → let u = (run_found answer digest now o r owner found s).0 in
        (length u.lanes ≤ max_lanes) × SendsNext r owner found s u
  unfolding run_found
  run_found_lem now o r owner (some lane) s e h = run_lane_lem now o r owner lane s e h
  run_found_lem now o r owner none s e h =
      if_elim (λ (x : Ledger × Outcome). Bounded r owner none s x.0) (r.operation == 1)
        (λ first.
          run_opened_lem now o r owner (open_lane o r owner s) s (open_lane-Opened o r owner s h)
            ((==_iff r.operation 1).0 first) h)
        (λ later. (h, inl refl))

  length-collect : (now : ℕ) (s : Ledger) → length (collect now s).lanes ≤ length s.lanes
  unfolding collect live
  length-collect now s = length-keep _ s.lanes

  nothing_sent :
      (r : Request) (owner : Option Text) (found : Option Lane) (s u : Ledger)
      → performs u.calls ≡ performs s.calls
      → SendsNext r owner found s u
  nothing_sent r owner none s u e = inl e
  nothing_sent r owner (some lane) s u e = inl e

  collected :
      (r : Request) (owner : Option Text) (found : Option Lane) (s t u : Ledger)
      → performs t.calls ≡ performs s.calls
      → SendsNext r owner found t u
      → SendsNext r owner found s u
  collected r owner none s t u e (inl quiet) = inl (quiet ∙ e)
  collected r owner none s t u e (inr (one, more)) = inr (one, rw (← e) more)
  collected r owner (some lane) s t u e (inl quiet) = inl (quiet ∙ e)
  collected r owner (some lane) s t u e (inr (own, op, more)) = inr (own, op, rw (← e) more)

  run_lem :
      (now : ℕ) (o : Options) (r : Request) (owner : Option Text) (s : Ledger)
      → length s.lanes ≤ max_lanes
      → Bounded r owner
          (lookup r.client_id (collect now s).lanes)
          s
          (run answer digest now o r owner s).0
  unfolding run
  run_lem now o r owner s h =
      let t = collect now s in
      let found = lookup r.client_id t.lanes in
      let few : length t.lanes ≤ max_lanes = omega (arith, length-collect now s) in
      let kept : performs t.calls ≡ performs s.calls = performs-collect now s in
      let (small, sends) = run_found_lem now o r owner found t refl few in
      let u = (run_found answer digest now o r owner found t).0 in
      let good : Bounded r owner found s u = (small, collected r owner found s t u kept sends) in
      let bad : Bounded r owner found s t = (few, nothing_sent r owner found s t kept) in
      if_elim (λ (x : Ledger × Outcome). Bounded r owner found s x.0) (is_valid r) (λ _. good)
        (λ _. bad)

  -- A request keeps the ledger within 4096 lanes, whatever it asks for and however many lanes are
  -- open.
  length-run :
      (now : ℕ) (o : Options) (r : Request) (owner : Option Text) (s : Ledger)
      → length s.lanes ≤ max_lanes
      → length (run answer digest now o r owner s).0.lanes ≤ max_lanes
  length-run now o r owner s h = (run_lem now o r owner s h).0

  -- A request sends at most one command to the browser, its own; and only where its number is the
  -- one after the last of the lane that is there when expired lanes are gone, and its owner is the
  -- lane's, or where there is no lane and its number is 1. Stale, repeated and foreign requests
  -- send nothing.
  performs-run :
      (now : ℕ) (o : Options) (r : Request) (owner : Option Text) (s : Ledger)
      → length s.lanes ≤ max_lanes
      → SendsNext r owner
          (lookup r.client_id (collect now s).lanes)
          s
          (run answer digest now o r owner s).0
  performs-run now o r owner s h = (run_lem now o r owner s h).1
