-- ===== src/Lite/Ledger/Retry.antt =====
-- A lost response is safe to retry: the second request gets the recorded outcome, and reaches the
-- browser with no second command.
use vibetop.Base.{
  ℕ, ◌+◌, ◌<◌, ◌≡◌, refl, sym, true, Option, none, some, List, [], ◌∷◌, ◌==◌, ==_refl, arith, Text,
  same_refl, same_option_refl, lookup, put, lookup-put, Bool-cases, inl, inr,
}
use vibetop.Lite.Ledger.{
  Body, Call, Answer, returned, threw, remote, Outcome, value, error, Lane, Ledger, Options,
  Request, is_valid, live, collect, open_lane, new_lane, cached, settle, run_lane, run_opened,
  run_found, run,
}
use vibetop.Lite.Ledger.Steps.{
  performs, performs-collect, renewed, started, with_lane, Ran, refused, changed, retried, stale,
  moved, executed, run_lane-Ran,
}

-- An outcome that a retry can be given again: a result, or an error with a message from the
-- browser.
abbrev pub IsFinal : Outcome → Type 0
IsFinal (value _) = Unit
IsFinal (error (remote (_ ∷ _))) = Unit
IsFinal (error _) = ⊥

lookup-live :
    (now : ℕ) (k : Text) {lane : Lane} (m : List (Text × Lane))
    → lookup k m ≡ some lane
    → now < lane.expires
    → lookup k (live now m) ≡ some lane
unfolding lookup live
lookup-live now k [] h lt = h
lookup-live now k {lane} ((j, l) ∷ m) h lt = ground (arith, lookup-live now k {lane = lane} m)

lookup-collect :
    (now : ℕ) (k : Text) {lane : Lane} (s : Ledger)
    → lookup k s.lanes ≡ some lane
    → now < lane.expires
    → lookup k (collect now s).lanes ≡ some lane
unfolding collect
lookup-collect now k s h lt = lookup-live now k s.lanes h lt

lookup-put_self : (k : Text) (l : Lane) (m : List (Text × Lane)) → lookup k (put k l m) ≡ some l
lookup-put_self k l m = rw (lookup-put, same_refl)

cached-renewed : (now : ℕ) (o : Options) (lane : Lane) → cached (renewed now o lane) ≡ cached lane
unfolding cached
cached-renewed now o lane = refl

module _ (answer : List Call → Text → Body → Answer) (digest : Text → Body → Text) where
  -- The lane holds the outcome of the request.
  abbrev Records : ℕ → Options → Request → Option Text → Outcome → Option Lane → Type 0
  Records now o r owner out none = ⊥
  Records now o r owner out (some lane) =
      (lane.operation ≡ r.operation)
      × (lane.fingerprint ≡ digest r.command r.body)
      × (lane.owner ≡ owner)
      × (cached lane ≡ out)
      × (lane.expires ≡ now + o.ttl)

  settle-Records :
      (now : ℕ) (o : Options) (r : Request) (lane : Lane) (a : Answer)
      → let (done, out) = settle (started digest now o r lane) a in
        IsFinal out → Records now o r lane.owner out (some done)
  unfolding settle cached
  settle-Records now o r lane (returned reply) f = (refl, refl, refl, refl, refl)
  settle-Records now o r lane (threw []) f = absurd f
  settle-Records now o r lane (threw (c ∷ m)) f = (refl, refl, refl, refl, refl)

  Ran-Records :
      (now : ℕ) (o : Options) (r : Request) (owner : Option Text) (lane : Lane) (s : Ledger)
      (x : Ledger × Outcome)
      → Ran answer digest now o r owner lane s x
      → IsFinal x.1
      → Records now o r owner x.1 (lookup r.client_id x.0.lanes)
  Ran-Records now o r owner lane s x (refused _) f = absurd f
  Ran-Records now o r owner lane s x (changed _ _) f = absurd f
  Ran-Records now o r owner lane s x (stale _ _) f = absurd f
  Ran-Records now o r owner lane s x (moved _) f = absurd f
  Ran-Records now o r owner lane s x (retried own op print) f =
      rw lookup-put_self (sym op, sym print, own, cached-renewed now o lane, refl)
  Ran-Records now o r owner lane s x (executed own op) f =
      rw (lookup-put_self, ← own) (settle-Records now o r lane (answer s.calls r.command r.body) f)

  run_opened-Records :
      (now : ℕ) (o : Options) (r : Request) (owner : Option Text) (t : Option Ledger) (s : Ledger)
      → let (u, out) = run_opened answer digest now o r owner t s in
        IsFinal out → Records now o r owner out (lookup r.client_id u.lanes)
  unfolding run_opened
  run_opened-Records now o r owner none s f = absurd f
  run_opened-Records now o r owner (some t) s f =
      Ran-Records now o r owner (new_lane r owner) t _
        (run_lane-Ran answer digest now o r owner (new_lane r owner) t) f

  run_found-Records :
      (now : ℕ) (o : Options) (r : Request) (owner : Option Text) (found : Option Lane) (s : Ledger)
      → let (u, out) = run_found answer digest now o r owner found s in
        IsFinal out → Records now o r owner out (lookup r.client_id u.lanes)
  unfolding run_found
  run_found-Records now o r owner (some lane) s =
      Ran-Records now o r owner lane s _ (run_lane-Ran answer digest now o r owner lane s)
  run_found-Records now o r owner none s = elim (Bool-cases (r.operation == 1)) [
    | inl first ↦ rw first (run_opened-Records now o r owner (open_lane o r owner s) s)
    | inr later ↦ rw later (λ f. absurd f)
  ]

  run-Records :
      (now : ℕ) (o : Options) (r : Request) (owner : Option Text) (s : Ledger)
      → let (u, out) = run answer digest now o r owner s in
        IsFinal out → (is_valid r ≡ true) × Records now o r owner out (lookup r.client_id u.lanes)
  unfolding run
  run-Records now o r owner s = elim (Bool-cases (is_valid r)) [
    | inl ok ↦ rw ok (λ f. (refl, run_found-Records now o r owner _ (collect now s) f))
    | inr bad ↦ rw bad (λ f. absurd f)
  ]

  run_lane-again :
      (now now' : ℕ) (o : Options) (r : Request) (owner : Option Text) (out : Outcome) (lane : Lane)
      (s : Ledger)
      → Records now o r owner out (some lane)
      → run_lane answer digest now' o r owner lane s ≡ (with_lane r (renewed now' o lane) s, out)
  unfolding run_lane
  run_lane-again now now' o r owner out lane s (op, print, own, kept, _) =
      rw (own, same_option_refl, op, ==_refl, print, same_refl, kept)

  run_is_found :
      (now : ℕ) (o : Options) (r : Request) (owner : Option Text) (s : Ledger)
      → is_valid r ≡ true
      → run answer digest now o r owner s
        ≡ run_found answer digest now o r owner
            (lookup r.client_id (collect now s).lanes)
            (collect now s)
  unfolding run
  run_is_found now o r owner s ok = rw ok

  run-again :
      (now now' : ℕ) (o : Options) (r : Request) (owner : Option Text) (out : Outcome)
      (found : Option Lane) (s : Ledger)
      → lookup r.client_id s.lanes ≡ found
      → is_valid r ≡ true
      → Records now o r owner out found
      → now' < now + o.ttl
      → let (u, out') = run answer digest now' o r owner s in
        (out' ≡ out) × (performs u.calls ≡ performs s.calls)
  unfolding run_found
  run-again now now' o r owner out none s e ok h lt = absurd h
  run-again now now' o r owner out (some lane) s e ok h lt =
      let t = collect now' s in
      let live_lane = lookup-collect now' r.client_id s e (rw h.4 lt) in
      rw
        (
          run_is_found now' o r owner s ok,
          live_lane,
          run_lane-again now now' o r owner out lane t h,
        )
        (refl, performs-collect now' s)

  -- Running a request again before its lane expires, with whatever outcome the first run returned
  -- from the browser (a result, or an error with a message), returns that outcome again, and sends
  -- no command to the browser.
  pub run-run :
      (now now' : ℕ) (o : Options) (r : Request) (owner : Option Text) (s : Ledger)
      → IsFinal (run answer digest now o r owner s).1
      → now' < now + o.ttl
      → let (u, out) = run answer digest now o r owner s in
        let (v, out') = run answer digest now' o r owner u in
        (out' ≡ out) × (performs v.calls ≡ performs u.calls)
  run-run now now' o r owner s f lt =
      let (ok, kept) = run-Records now o r owner s f in
      let (u, out) = run answer digest now o r owner s in
      run-again now now' o r owner out (lookup r.client_id u.lanes) u refl ok kept lt
