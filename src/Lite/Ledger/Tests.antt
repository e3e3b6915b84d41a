-- ===== src/Lite/Ledger/Tests.antt =====
-- Runs of the ledger, and its theorems at concrete inputs.
use vibetop.Base.{
  ℕ, ◌≡◌, refl, false, none, some, List, [], ◌∷◌, arith, Text, length, replicate, lookup, put, same,
}
use vibetop.Lite.Ledger.{
  Body, Call, perform, Answer, returned, error, stale_operation, tab_expired, session_mismatch,
  Ledger, Options, Request, run, touch, revoke,
}
use vibetop.Lite.Ledger.Steps.{performs}
use vibetop.Lite.Ledger.Retry.{run-run}

abbrev client : Text
client = replicate 36 b'a'

abbrev body : Body
body = record { tab_id = none; rest = [] }

abbrev request : ℕ → Request
request n = record { command = 103 ∷ []; client_id = client; operation = n; body = body }

abbrev options : Options
options = record { ttl = 1000; limit = 128 }

-- The browser answers each command with the number of calls so far.
abbrev answer : List Call → Text → Body → Answer
answer cs c b =
    returned (record { tab_id = some (116 ∷ []); closed = false; rest = length cs ∷ [] })

abbrev digest : Text → Body → Text
digest c b = c

abbrev empty : Ledger
empty = record { lanes = []; calls = [] }

abbrev after_first : Ledger
after_first = (run answer digest 0 options (request 1) none empty).0

first_performs :
    (run answer digest 0 options (request 1) none empty).0.calls ≡ perform (103 ∷ []) body ∷ []
unfolding run lookup put same
first_performs = refl

-- A number out of sequence is refused.
skipped :
    (run answer digest 1 options
      (request 3)
      none
      (run answer digest 0 options (request 1) none empty).0).1
    ≡ error stale_operation
unfolding run lookup put same
skipped = refl

foreign :
    (run answer digest 1 options
      (request 2)
      (some (120 ∷ []))
      (run answer digest 0 options (request 1) none empty).0).1
    ≡ error session_mismatch
unfolding run lookup put same
foreign = refl

-- A revoked client starts anew; a touch finds nothing.
revoked :
    (touch 2 options client none
      (revoke none (run answer digest 0 options (request 1) none empty).0)).1
    ≡ some tab_expired
unfolding run touch revoke lookup put same
revoked = refl

run-run_example :
    let (u, out) = run answer digest 0 options (request 1) none empty in
    let (v, out') = run answer digest 5 options (request 1) none u in
    (out' ≡ out) × (performs v.calls ≡ performs u.calls)
run-run_example =
    run-run answer digest 0 5 options (request 1) none empty (unfold run lookup same in tt)
      (omega arith)
