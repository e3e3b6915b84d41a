-- ===== src/Lite/Ledger/Steps.antt =====
-- The ways that one request to a lane can go, as a relation, and what reaches the browser.
use vibetop.Base.{
  ℕ, ◌+◌, ◌≡◌, ◌≢◌, refl, ap, ◌&&◌, not, Option, none, List, [], ◌∷◌, ◌++◌, ◌==◌, ==_iff, arith,
  Text, same, same_iff, same_option, same_option_refl, eq_of_same_option, put, Bool-cases, inl, inr,
  append-nil,
}
use vibetop.Lite.Ledger.{
  truthy, Body, Call, perform, expire, Answer, session_mismatch, operation_changed, stale_operation,
  tab_changed, Outcome, error, Lane, Ledger, Options, Request, expired, collect, cached, settle,
  run_lane,
}

-- The commands that reached the browser, in order.
abbrev pub performs : List Call → List Call
performs [] = []
performs (perform c b ∷ cs) = perform c b ∷ performs cs
performs (expire t ∷ cs) = performs cs

pub performs-append : (xs ys : List Call) → performs (xs ++ ys) ≡ performs xs ++ performs ys
performs-append [] ys = refl
performs-append (perform c b ∷ xs) ys = ap (perform c b ∷◌) (performs-append xs ys)
performs-append (expire t ∷ xs) ys = performs-append xs ys

performs-expired : (now : ℕ) (m : List (Text × Lane)) → performs (expired now m) ≡ []
unfolding expired
performs-expired now [] = refl
performs-expired now ((k, lane) ∷ m) = ground (arith, performs-expired now m)

pub performs-collect : (now : ℕ) (s : Ledger) → performs (collect now s).calls ≡ performs s.calls
unfolding collect
performs-collect now s = rw (performs-append, performs-expired now s.lanes, append-nil)

abbrev pub renewed : ℕ → Options → Lane → Lane
renewed now o lane = record lane { expires = now + o.ttl }

abbrev pub started : (Text → Body → Text) → ℕ → Options → Request → Lane → Lane
started digest now o r lane = record lane {
  operation = r.operation;
  fingerprint = digest r.command r.body;
  error = none;
  result = none;
  expires = now + o.ttl;
}

abbrev pub with_lane : Request → Lane → Ledger → Ledger
with_lane r lane s = record s { lanes = put r.client_id lane s.lanes }

module _ (answer : List Call → Text → Body → Answer) (digest : Text → Body → Text) where
  -- What one request does with the lane that it finds.
  pub data Ran (now : ℕ) (o : Options) (r : Request) (owner : Option Text) (lane : Lane)
      (s : Ledger) : Ledger × Outcome → Type 0 where
    refused : lane.owner ≢ owner → Ran now o r owner lane s (s, error session_mismatch)
    changed :
        lane.owner ≡ owner
        → r.operation ≡ lane.operation
        → Ran now o r owner lane s (with_lane r (renewed now o lane) s, error operation_changed)
    retried :
        lane.owner ≡ owner
        → r.operation ≡ lane.operation
        → digest r.command r.body ≡ lane.fingerprint
        → Ran now o r owner lane s (with_lane r (renewed now o lane) s, cached lane)
    stale :
        lane.owner ≡ owner
        → r.operation ≢ lane.operation + 1
        → Ran now o r owner lane s (with_lane r (renewed now o lane) s, error stale_operation)
    moved :
        lane.owner ≡ owner
        → Ran now o r owner lane s (with_lane r (renewed now o lane) s, error tab_changed)
    executed :
        lane.owner ≡ owner
        → r.operation ≡ lane.operation + 1
        → Ran now o r owner lane s (
          record {
            lanes =
                put r.client_id
                  (settle (started digest now o r lane) (answer s.calls r.command r.body)).0
                  s.lanes;
            calls = s.calls ++ perform r.command r.body ∷ [];
          },
          (settle (started digest now o r lane) (answer s.calls r.command r.body)).1,
        )

  pub run_lane-Ran :
      (now : ℕ) (o : Options) (r : Request) (owner : Option Text) (lane : Lane) (s : Ledger)
      → Ran now o r owner lane s (run_lane answer digest now o r owner lane s)
  unfolding run_lane
  run_lane-Ran now o r owner lane s = elim (Bool-cases (same_option lane.owner owner)) [
    | inr other ↦ rw other (refused (λ e. ground (arith, same_option_refl owner)))
    | inl mine ↦
        let own = eq_of_same_option lane.owner owner mine in
        rw mine (elim (Bool-cases (r.operation == lane.operation)) [
          | inl again ↦
              let op = (==_iff r.operation lane.operation).0 again in
              rw again (elim (Bool-cases (same (digest r.command r.body) lane.fingerprint)) [
                | inr other ↦ rw other (changed own op)
                | inl print ↦ rw print (retried own op ((same_iff _ _).0 print))
              ])
          | inr next ↦ rw next (elim (Bool-cases (r.operation == lane.operation + 1)) [
            | inr old ↦ rw old (stale own (ground arith))
            | inl fits ↦
                let op = (==_iff r.operation (lane.operation + 1)).0 fits in
                rw fits
                  (elim (Bool-cases
                    (truthy lane.tab_id && not (same_option r.body.tab_id lane.tab_id))) [
                      | inl other ↦ rw other (moved own)
                      | inr tab ↦ rw tab (executed own op)
                    ])
          ])
        ])
  ]
