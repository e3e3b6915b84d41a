-- ===== src/Term/Http/Stream.antt =====
-- What was sent and what is queued, over the life of a socket.
use vibetop.Base.{
  ◌+◌, ◌-◌, ◌≡◌, refl, sym, ◌∙◌, ap, true, ◌&&◌, ◌||◌, not, Option, none, some, List, [], ◌∷◌, ◌++◌,
  ◌⊎◌, if_elim, ltb, length, arith, append_assoc, append-nil, inl, inr,
}
use vibetop.Term.Http.{
  Frame, Request, Socket, ReadyState, connecting, opened, closed, is_open, is_sending, starts,
  resize_code, pump_queue, flush, fail, push, send_http, answered, answered_with, failed, Event,
  send_event, microtask, answer, failure, close_event, response, Response, deliver, deliver_frames,
  step, run, sent, send, send_in, send_open, or_same, max_frame, max_buffered,
}
use vibetop.Term.Http.Batch.{items, items-append}
use vibetop.Term.Http.Turn.{stream, IsCounted}
use vibetop.Term.Http.Happen.{finish-closed, step-Good, deliver_frames-Kept}

-- An event keeps the state, or closes the socket.
abbrev Ends : Socket → Socket → Type 0
Ends s t = (t.state ≡ s.state) ⊎ (t.state ≡ closed)

pump_queue-state : (queue : List Frame) (s : Socket) → (pump_queue queue s).state ≡ s.state
unfolding pump_queue
pump_queue-state [] s = refl
pump_queue-state (f ∷ queue) s = refl

flush-Ends : (s t : Socket) → t.state ≡ s.state → Ends s (flush t)
unfolding flush
flush-Ends s t e =
    if_elim (Ends s) (is_sending t || not (is_open t)) (λ rest. inl e)
      (λ go. inl (pump_queue-state t.queue t ∙ e))

send_open-Ends : (f : Frame) (s : Socket) → Ends s (send_open f s)
unfolding send_open send_http fail
send_open-Ends f s =
    if_elim (Ends s) s.http
      (λ http.
        if_elim (Ends s)
          (ltb max_frame (length f.bytes) || ltb max_buffered (s.buffered + length f.bytes))
          (λ large. inr (finish-closed s))
          (λ fits.
            if_elim (Ends s) (starts resize_code f.bytes && not (is_sending s)) (λ later. inl refl)
              (λ now. flush-Ends s (push f s) refl)))
      (λ native. inl refl)

send_in-Ends : (st : ReadyState) (f : Frame) (s : Socket) → Ends s (or_same (send_in st f s) s)
unfolding send_in
send_in-Ends connecting f s = inl refl
send_in-Ends closed f s = inl refl
send_in-Ends opened f s = send_open-Ends f s

answered_with-Ends : (r : Option Request) (s : Socket) → Ends s (answered_with r s)
unfolding answered_with
answered_with-Ends none s = inl refl
answered_with-Ends (some r) s =
    if_elim (Ends s) (is_open s)
      (λ going. flush-Ends s (record s { awaited = none; buffered = s.buffered - r.size }) refl)
      (λ gone. inl refl)

deliver-Ends : (r : Response) (s : Socket) → Ends s (deliver r s)
unfolding deliver
deliver-Ends r s =
    let t = deliver_frames r.frames s in
    if_elim (Ends s) (is_open s)
      (λ going.
        if_elim (Ends s) r.is_last (λ last. inr (finish-closed t))
          (λ more. inl (deliver_frames-Kept r.frames s).1))
      (λ gone. inl refl)

step-Ends : (e : Event) (s : Socket) → Ends s (step e s)
unfolding step send answered failed fail
step-Ends (send_event f) s = send_in-Ends s.state f s
step-Ends microtask s = flush-Ends s s refl
step-Ends answer s = answered_with-Ends s.awaited s
step-Ends failure s = inr (finish-closed (record s { awaited = none }))
step-Ends close_event s = inr (finish-closed s)
step-Ends (response r) s = deliver-Ends r s

was_opened : (s t : Socket) → Ends s t → t.state ≡ opened → s.state ≡ opened
was_opened s t (inl kept) h = sym kept ∙ h
was_opened s t (inr ended) h = ground arith

run-was_opened : (es : List Event) (s : Socket) → (run es s).state ≡ opened → s.state ≡ opened
unfolding run
run-was_opened [] s h = h
run-was_opened (e ∷ es) s h =
    was_opened s (step e s) (step-Ends e s) (run-was_opened es (step e s) h)

sent-append :
    (e : Event) (es : List Event) → items (sent (e ∷ es)) ≡ items (sent (e ∷ [])) ++ items (sent es)
unfolding sent items
sent-append (send_event f) es = items-append (f ∷ []) (sent es)
sent-append microtask es = refl
sent-append answer es = refl
sent-append failure es = refl
sent-append close_event es = refl
sent-append (response r) es = refl

-- While a socket over requests is open, what has left in its requests and what is still queued mean
-- together exactly what was sent, in its order: of the typed bytes and the other frames none is
-- lost, doubled or moved. And the buffered amount is that of the queue and the awaited request.
pub run-stream :
    (es : List Event) (s : Socket)
    → s.http ≡ true
    → IsCounted s
    → (run es s).state ≡ opened
    → (stream (run es s) ≡ stream s ++ items (sent es)) × IsCounted (run es s)
unfolding run items
run-stream [] s http h up = (unfold sent in sym (append-nil (stream s)), h)
run-stream (e ∷ es) s http h up =
    let t = step e s in
    let t_up : t.state ≡ opened = run-was_opened es t up in
    let s_up = was_opened s t (step-Ends e s) t_up in
    elim (step-Good e s s_up http h) [
      | inl gone ↦ ground arith
      | inr (_, same_http, added, counted) ↦
          let (rest, still) = run-stream es t (same_http ∙ http) counted up in
          (
            rest
                ∙ ap (λ xs. xs ++ items (sent es)) added
                ∙ append_assoc (stream s) (items (sent (e ∷ []))) (items (sent es))
                ∙ ap (λ xs. stream s ++ xs) (sym (sent-append e es)),
            still,
          )
    ]
