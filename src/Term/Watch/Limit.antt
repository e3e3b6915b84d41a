-- ===== src/Term/Watch/Limit.antt =====
-- The bound on recoveries over a session without output.
use vibetop.Base.{
  ℕ, ◌+◌, ◌≤◌, ◌≡◌, refl, Bool, true, false, ◌&&◌, ◌||◌, not, Option, none, some, List, [], ◌∷◌,
  if◌then◌else◌, if_elim, arith,
}
use vibetop.Term.Watch.{
  Watch, Env, Event, ticked, resumed, token_answered, socket_made, opened, failed_event, message,
  ended, page_hidden, loaded, tick, token, new_socket, socket_opened, socket_message, socket_ended,
  socket_failed, unhide, hide, awaiting_output, errored, closed, notice_dead, resume, load, step,
  run, is_reconnecting, is_current,
}
use vibetop.Term.Watch.Budget.{
  recoveries, recoveries-append, IsCounted, Spends, Same, Same-IsCounted, Same-Spends, tick-Spends,
}

unhide-Same : (e : Env) (at : Option ℕ) (s : Watch) → Same s (unhide e at s)
unfolding unhide
unhide-Same e none s = (refl, refl, refl)
unhide-Same e (some at) s = (refl, refl, refl)

notice_dead-Same : (e : Env) (s : Watch) → Same s (notice_dead e s)
unfolding notice_dead
notice_dead-Same e s =
    if_elim (Same s) (e.socket_closed && not (is_reconnecting s.phase)) (λ dead. (refl, refl, refl))
      (λ live. (refl, refl, refl))

-- A call that changes none of the counts and does nothing that counts.
idle : (s t : Watch) → Same s t → IsCounted s → IsCounted t × (0 + s.stored ≡ t.stored)
idle s t same h = (Same-IsCounted s t same h, omega (arith, same.1))

resume-Spends : (e : Env) (s : Watch) → IsCounted s → Spends s (resume e s)
unfolding resume recoveries
resume-Spends e s h =
    let t = unhide e s.hidden_at s in
    let same = unhide-Same e s.hidden_at s in
    let counted = Same-IsCounted s t same h in
    if_elim (Spends s) e.hidden
      (λ hidden. idle s (record s { hidden_at = hide e s.hidden_at }) (refl, refl, refl) h)
      (λ seen.
        if_elim (Spends s) (t.stopped || t.exhausted) (λ done. idle s t same h)
          (λ going. Same-Spends s t (tick e (notice_dead e t)) same (
            Same-Spends t (notice_dead e t) (tick e (notice_dead e t)) (notice_dead-Same e t) (
              tick-Spends e (notice_dead e t)
                (Same-IsCounted t (notice_dead e t) (notice_dead-Same e t) counted)))))

token-Spends : (fetched : Bool) (s : Watch) → IsCounted s → Spends s (token fetched s)
unfolding token recoveries
token-Spends true s h =
    if_elim (Spends s) (not s.stopped && not s.exhausted && is_reconnecting s.phase)
      (λ go. idle s s (refl, refl, refl) h) (λ no. idle s s (refl, refl, refl) h)
token-Spends false s h = idle s s (refl, refl, refl) h

new_socket-Spends :
    (id : ℕ) (live disposable : Bool) (s : Watch)
    → IsCounted s
    → Spends s (new_socket id live disposable s)
unfolding new_socket recoveries
new_socket-Spends id true true s h =
    (record { few = h.few; kept = h.kept; going = h.going }, omega arith)
new_socket-Spends id true false s h =
    (record { few = h.few; kept = h.kept; going = h.going }, omega arith)
new_socket-Spends id false d s h =
    (record { few = h.few; kept = h.kept; going = h.going }, omega arith)

socket_opened-Spends : (id : ℕ) (s : Watch) → IsCounted s → Spends s (socket_opened id s)
unfolding socket_opened recoveries
socket_opened-Spends id s h =
    if_elim (λ (t : Watch). Spends s (t, [])) (is_current id s)
      (λ mine. idle s (record s { phase = awaiting_output }) (refl, refl, refl) h)
      (λ other. idle s s (refl, refl, refl) h)

socket_failed-Spends : (id : ℕ) (s : Watch) → IsCounted s → Spends s (socket_failed id s)
unfolding socket_failed recoveries
socket_failed-Spends id s h =
    if_elim (λ (t : Watch). Spends s (t, [])) (is_current id s)
      (λ mine. idle s (record s { phase = errored }) (refl, refl, refl) h)
      (λ other. idle s s (refl, refl, refl) h)

socket_message-Spends : (id : ℕ) (s : Watch) → IsCounted s → Spends s (socket_message id false s)
unfolding socket_message recoveries
socket_message-Spends id s h =
    if_elim (Spends s) (not (is_current id s) || s.ready || s.stopped || true)
      (λ none_of_it. idle s s (refl, refl, refl) h) (λ output. ground arith)

socket_ended-Spends :
    (e : Env) (id code : ℕ) (s : Watch) → IsCounted s → Spends s (socket_ended e id code s)
unfolding socket_ended recoveries
socket_ended-Spends e id code s h =
    let t : Watch = record s {
      since = if s.ready then e.now else s.since;
      ready = false;
      phase = closed;
      close_code = some code;
      closed_at = e.now;
    } in
    if_elim (Spends s) (not (is_current id s) || s.stopped) (λ no. idle s s (refl, refl, refl) h)
      (λ mine.
        let (counted, spent) =
          tick-Spends e t (record { few = h.few; kept = h.kept; going = h.going }) in
        (counted, omega (arith, spent)))

load-Spends : (e : Env) (s : Watch) → IsCounted s → Spends s (load e s, [])
unfolding load recoveries
load-Spends e s h =
    (record { few = h.few; kept = omega arith; going = λ k. omega (arith, h.few) }, omega arith)

-- An event that brings no output of the shell.
abbrev pub IsSilent : Event → Type 0
IsSilent (message id output) = output ≡ false
IsSilent _ = Unit

unfoldable pub AllSilent : List Event → Type 0
AllSilent [] = Unit
AllSilent (e ∷ es) = IsSilent e × AllSilent es

step-Spends : (e : Event) (s : Watch) → IsSilent e → IsCounted s → Spends s (step e s)
unfolding step recoveries
step-Spends (ticked e) s quiet h = tick-Spends e s h
step-Spends (resumed e) s quiet h = resume-Spends e s h
step-Spends (token_answered fetched) s quiet h = token-Spends fetched s h
step-Spends (socket_made id live disposable) s quiet h = new_socket-Spends id live disposable s h
step-Spends (opened id) s quiet h = socket_opened-Spends id s h
step-Spends (failed_event id) s quiet h = socket_failed-Spends id s h
step-Spends (message id true) s quiet h = ground arith
step-Spends (message id false) s quiet h = socket_message-Spends id s h
step-Spends (ended e id code) s quiet h = socket_ended-Spends e id code s h
step-Spends page_hidden s quiet h =
    (record { few = h.few; kept = h.kept; going = λ k. ground arith }, omega arith)
step-Spends (loaded e) s quiet h = load-Spends e s h

-- As long as no output of the shell arrives, the watch recovers at most as often by itself as the
-- stored count is below three, over all loads of the page together; and it counts each recovery.
pub recoveries-run :
    (es : List Event) (s : Watch)
    → AllSilent es
    → IsCounted s
    → (recoveries (run es s).1 + s.stored ≡ (run es s).0.stored) × ((run es s).0.stored ≤ 3)
unfolding run recoveries AllSilent
recoveries-run [] s quiet h = (omega arith, h.few)
recoveries-run (e ∷ es) s (first, later) h =
    let (t, actions) = step e s in
    let (counted, spent) = step-Spends e s first h in
    let (rest, few) = recoveries-run es t later counted in
    (omega (arith, spent, rest, recoveries-append actions (run es t).1), few)
