-- ===== src/Term/Watch/Tests.antt =====
-- The watch over concrete sessions, and the theorems there.
use vibetop.Base.{ℕ, ◌+◌, ◌≤◌, ◌≡◌, refl, true, false, none, List, [], ◌∷◌, arith}
use vibetop.Term.Watch.{
  Watch, Env, Event, startup, ticked, ended, socket_made, opened, message, loaded, run, reload,
  show, log, stalled, timeout, dispose, refresh_token, clean_close, inplace_reconnect, socket_close,
}
use vibetop.Term.Watch.Budget.{recoveries}
use vibetop.Term.Watch.Limit.{AllSilent, recoveries-run}
use vibetop.Term.Watch.Quiet.{AllQuiet, run-Rests}

abbrev env : ℕ → Env
env now = record {
  now = now;
  hidden = false;
  foreground = true;
  online = true;
  socket_closed = false;
  owned = true;
  disposable = true;
  storage = true;
}

abbrev fresh : Watch
fresh = record {
  socket = none;
  ready = false;
  stopped = false;
  exhausted = false;
  close_code = none;
  closed_at = 0;
  resume_closed = false;
  was_offline = false;
  since = 0;
  phase = startup;
  retries = 0;
  hidden_at = none;
  foreground = true;
  stored = 0;
}

-- Nothing happens for 45 seconds: then the page is loaded again.
stuck :
    (run (ticked (env 2000) ∷ ticked (env 46000) ∷ []) fresh).1
    ≡ show stalled ∷ log timeout ∷ reload ∷ []
unfolding run
stuck = refl

abbrev connected : List Event
connected = socket_made 1 false false ∷ opened 1 ∷ message 1 true ∷ []

-- A clean close of a connected shell is recovered at once, in place.
recovered_at_once :
    (run (ended (env 90000) 1 1000 ∷ []) (run connected fresh).0).1
    ≡ log socket_close
      ∷ show stalled
      ∷ log clean_close
      ∷ dispose
      ∷ log inplace_reconnect
      ∷ refresh_token
      ∷ []
unfolding run
recovered_at_once = refl

run-Rests_example :
    ((run (ticked (env 900000) ∷ []) (run connected fresh).0).1 ≡ [])
    × ((run (ticked (env 900000) ∷ []) (run connected fresh).0).0.ready ≡ true)
unfolding run AllQuiet
run-Rests_example = run-Rests (ticked (env 900000) ∷ []) (run connected fresh).0 (refl, tt) refl

abbrev stuck_events : List Event
stuck_events = ticked (env 46000) ∷ loaded (env 47000) ∷ ticked (env 99000) ∷ []

recoveries-run_example :
    (recoveries (run stuck_events fresh).1 + 0 ≡ (run stuck_events fresh).0.stored)
    × ((run stuck_events fresh).0.stored ≤ 3)
unfolding AllSilent
recoveries-run_example =
    recoveries-run stuck_events fresh (tt, (tt, (tt, tt)))
      (record { few = omega arith; kept = omega arith; going = λ k. refl })
