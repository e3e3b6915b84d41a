-- ===== src/Term/Watch/Quiet.antt =====
-- A terminal that is connected is left alone, however long it is quiet.
use vibetop.Base.{
  ℕ, ◌≡◌, refl, true, false, ◌||◌, not, List, [], ◌∷◌, arith, if_elim, Option, none, some,
}
use vibetop.Term.Watch.{
  Watch, Env, Action, Event, ticked, resumed, message, wake, notice_closed, notice_dead, unhide,
  watch_socket, tick, resume, step, run, socket_message, token_answered, socket_made, opened,
  failed_event, ended, page_hidden, loaded, is_current,
}

-- Calls of the watch while its socket is not closed, and messages.
abbrev pub IsQuiet : Event → Type 0
IsQuiet (ticked e) = e.socket_closed ≡ false
IsQuiet (resumed e) = e.socket_closed ≡ false
IsQuiet (message id output) = Unit
IsQuiet _ = ⊥

unfoldable pub AllQuiet : List Event → Type 0
AllQuiet [] = Unit
AllQuiet (e ∷ es) = IsQuiet e × AllQuiet es

-- Ready before and after, and nothing done.
abbrev Rests : Watch × List Action → Type 0
Rests x = (x.1 ≡ []) × (x.0.ready ≡ true)

notice_closed-ready :
    (e : Env) (s : Watch)
    → e.socket_closed ≡ false
    → s.ready ≡ true
    → (notice_closed e s).ready ≡ true
unfolding notice_closed
notice_closed-ready e s live h = rw live h

watch_socket-Rests :
    (e : Env) (s : Watch) → e.socket_closed ≡ false → s.ready ≡ true → Rests (watch_socket e s)
unfolding watch_socket
watch_socket-Rests e s live h =
    let t = notice_closed e s in
    let still = notice_closed-ready e s live h in
    if_elim Rests t.ready (λ yes. (refl, still)) (λ no. ground arith)

wake-ready : (e : Env) (s : Watch) → s.ready ≡ true → (wake e s).ready ≡ true
unfolding wake
wake-ready e s h = if_elim (λ (t : Watch). t.ready ≡ true) s.foreground (λ here. h) (λ back. h)

tick-Rests : (e : Env) (s : Watch) → e.socket_closed ≡ false → s.ready ≡ true → Rests (tick e s)
unfolding tick
tick-Rests e s live h =
    let awake = wake-ready e s h in
    if_elim Rests (not e.foreground) (λ away. (refl, h))
      (λ here.
        if_elim Rests (s.stopped || s.exhausted) (λ done. (refl, awake))
          (λ going. watch_socket-Rests e (wake e s) live awake))

unhide-ready : (e : Env) (at : Option ℕ) (s : Watch) → s.ready ≡ true → (unhide e at s).ready ≡ true
unfolding unhide
unhide-ready e none s h = h
unhide-ready e (some at) s h = h

notice_dead-ready :
    (e : Env) (s : Watch)
    → e.socket_closed ≡ false
    → s.ready ≡ true
    → (notice_dead e s).ready ≡ true
unfolding notice_dead
notice_dead-ready e s live h = rw live h

resume-Rests : (e : Env) (s : Watch) → e.socket_closed ≡ false → s.ready ≡ true → Rests (resume e s)
unfolding resume
resume-Rests e s live h =
    let t = unhide e s.hidden_at s in
    let seen = unhide-ready e s.hidden_at s h in
    if_elim Rests e.hidden (λ hidden. (refl, h))
      (λ shown.
        if_elim Rests (t.stopped || t.exhausted) (λ done. (refl, seen))
          (λ going. tick-Rests e (notice_dead e t) live (notice_dead-ready e t live seen)))

step-Rests : (e : Event) (s : Watch) → IsQuiet e → s.ready ≡ true → Rests (step e s)
unfolding step socket_message
step-Rests (ticked e) s live h = tick-Rests e s live h
step-Rests (resumed e) s live h = resume-Rests e s live h
step-Rests (message id output) s live h =
    if_elim Rests (not (is_current id s) || s.ready || s.stopped || not output) (λ no. (refl, h))
      (λ yes. ground arith)
step-Rests (token_answered fetched) s live h = absurd live
step-Rests (socket_made id d l) s live h = absurd live
step-Rests (opened id) s live h = absurd live
step-Rests (failed_event id) s live h = absurd live
step-Rests (ended e id code) s live h = absurd live
step-Rests page_hidden s live h = absurd live
step-Rests (loaded e) s live h = absurd live

-- While a shell that has sent output is connected, any calls of the watch and any messages, at any
-- times and however long it is silent, do nothing to it: no notice, no reconnection, no reload.
pub run-Rests :
    (es : List Event) (s : Watch)
    → AllQuiet es
    → s.ready ≡ true
    → ((run es s).1 ≡ []) × ((run es s).0.ready ≡ true)
unfolding run AllQuiet
run-Rests [] s quiet h = (refl, h)
run-Rests (e ∷ es) s (first, later) h =
    let (t, actions) = step e s in
    let (none_yet, still) = step-Rests e s first h in
    let (rest, end) = run-Rests es t later still in (rw (none_yet, rest) refl, end)
