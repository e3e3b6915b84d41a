-- ===== src/Lite/Workers/Tests.antt =====
-- A store for two entries, and the theorems there.
use vibetop.Base.{
  ℕ, ◌+◌, ◌≡◌, refl, Bool, true, none, some, List, [], ◌∷◌, Text, codes, same, lookup, put, remove,
  arith,
}
use vibetop.Lite.Workers.{Waiter, Options, empty}
use vibetop.Lite.Workers.Bounds.{IsBounded}
use vibetop.Lite.Workers.Steps.{Operation, puts, waits, times_out, run, run-IsBounded}
use vibetop.Lite.Workers.Told.{tally, queued}
use vibetop.Lite.Workers.Once.{tally-run}
use vibetop.Lite.Workers.Isolated.{IsSafe, run-IsSafe}

abbrev options : Options
options = record {
  ttl = 60;
  max_bytes = 3;
  max_entries = 2;
  max_total_bytes = 4;
  max_total_entries = 2;
}

abbrev any_id : Text → Bool
any_id id = true

abbrev waiter : ℕ → Text → Waiter
waiter n realm = record { number = n; physical = realm }

-- Two realms wait for the source that the first then uploads; the second is told nothing.
abbrev script : List (ℕ × Operation)
script =
    (0, waits (waiter 1 (codes "a")) (codes "w"))
    ∷ (1, waits (waiter 2 (codes "b")) (codes "w"))
    ∷ (2, puts [] (codes "a") (codes "js") (some (codes "w")))
    ∷ (3, times_out (waiter 1 (codes "a")) (codes "w"))
    ∷ []

told :
    (run options any_id script empty).1
    ≡ record { number = 1; physical = codes "a"; id = codes "w"; body = some (codes "js") }
      ∷ record { number = 2; physical = codes "b"; id = codes "w"; body = none }
      ∷ []
unfolding run lookup put remove same
told = refl

empty-IsBounded : IsBounded options empty
empty-IsBounded = record {
  distinct = tt;
  counted = refl;
  all_bytes = omega arith;
  all_entries = omega arith;
  own_bytes = λ p. omega arith;
  own_entries = λ p. omega arith;
  all_failed = omega arith;
  waiters_distinct = tt;
  all_waiting = omega arith;
}

run-IsBounded_example : IsBounded options (run options any_id script empty).0
run-IsBounded_example =
    run-IsBounded options any_id script empty empty-IsBounded
      (tt, (tt, ((λ e. absurd (cc)), (tt, tt))))

tally-run_example :
    tally 1 (run options any_id script empty).1 + queued 1 (run options any_id script empty).0
    ≡ 0 + 1
unfolding run
tally-run_example = tally-run options any_id 1 script empty tt

run-IsSafe_example : IsSafe (λ realm body. realm ≡ codes "a") (run options any_id script empty)
run-IsSafe_example =
    run-IsSafe (λ realm body. realm ≡ codes "a") options any_id script empty
      (tt, (tt, (refl, (tt, tt)))) tt
