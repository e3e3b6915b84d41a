-- ===== src/Term/Http/Happen.antt =====
-- One event on an open socket: it closes the socket, or adds to the stream what it sends.
use vibetop.Base.{
  ◌+◌, ◌-◌, ◌≡◌, refl, sym, ◌∙◌, ap, subst, true, false, ◌&&◌, ◌||◌, not, Option, none, some, List,
  [], ◌∷◌, ◌++◌, ◌⊎◌, if_elim, ltb, leb, length, arith, append_assoc, append-nil, Bool-cases, inl,
  inr,
}
use vibetop.Term.Http.{
  Frame, Request, Socket, opened, closed, is_open, is_closed, is_sending, starts, resize_code,
  size_of, pump_queue, flush, finish, fail, push, send_http, answered, answered_with, failed, Event,
  send_event, microtask, answer, failure, close_event, response, Response, Numbered, deliver,
  deliver_frames, step, sent, send, send_in, send_open, or_same, max_frame, max_buffered,
}
use vibetop.Term.Http.Batch.{items, items-append, size_of-append}
use vibetop.Term.Http.Turn.{meaning, stream, awaited_size, IsCounted, flush-Keeps}

-- An event closes the socket, or it keeps it open and adds the frames of the event to the stream.
abbrev pub Good : List Frame → Socket → Socket → Type 0
Good fs s t =
    (t.state ≡ closed)
    ⊎ ((t.state ≡ opened) × (t.http ≡ s.http) × (stream t ≡ stream s ++ items fs) × IsCounted t)

pub finish-closed : (s : Socket) → (finish s).state ≡ closed
unfolding finish
finish-closed s = elim (Bool-cases (is_closed s)) [
  | inl done ↦ rw done (ground arith)
  | inr going ↦ rw going refl
]

pump_queue-http : (queue : List Frame) (s : Socket) → (pump_queue queue s).http ≡ s.http
unfolding pump_queue
pump_queue-http [] s = refl
pump_queue-http (f ∷ queue) s = refl

flush-http : (s : Socket) → (flush s).http ≡ s.http
unfolding flush
flush-http s =
    if_elim (λ (t : Socket). t.http ≡ s.http) (is_sending s || not (is_open s)) (λ rest. refl)
      (λ go. pump_queue-http s.queue s)

-- A flush of a socket that differs from `s` by the added frames.
flush-Good :
    (fs : List Frame) (s t : Socket)
    → t.state ≡ opened
    → t.http ≡ s.http
    → stream t ≡ stream s ++ items fs
    → IsCounted t
    → Good fs s (flush t)
flush-Good fs s t is_up http added h =
    let (same_stream, counted, state) = flush-Keeps t h in
    inr (state ∙ is_up, flush-http t ∙ http, same_stream ∙ added, counted)

push-stream : (f : Frame) (s : Socket) → stream (push f s) ≡ stream s ++ items (f ∷ [])
unfolding stream
push-stream f s =
    ap (λ xs. meaning s.requests ++ xs) (items-append s.queue (f ∷ []))
    ∙ sym (append_assoc (meaning s.requests) (items s.queue) (items (f ∷ [])))

push-IsCounted : (f : Frame) (s : Socket) → IsCounted s → IsCounted (push f s)
unfolding size_of
push-IsCounted f s h = omega (arith, h, size_of-append s.queue (f ∷ []))

send_http-Good :
    (f : Frame) (s : Socket) → s.state ≡ opened → IsCounted s → Good (f ∷ []) s (send_http f s)
unfolding send_http fail
send_http-Good f s is_up h =
    let added = push-stream f s in
    let counted = push-IsCounted f s h in
    if_elim (Good (f ∷ []) s)
      (ltb max_frame (length f.bytes) || ltb max_buffered (s.buffered + length f.bytes))
      (λ large. inl (finish-closed s))
      (λ fits.
        if_elim (Good (f ∷ []) s) (starts resize_code f.bytes && not (is_sending s))
          (λ later. inr (is_up, refl, added, counted))
          (λ now. flush-Good (f ∷ []) s (push f s) is_up refl added counted))

not_open : (s : Socket) → s.state ≡ opened → is_open s ≡ false → ⊥
not_open s h g = ground arith

answered_with-Good :
    (r : Option Request) (s : Socket)
    → s.awaited ≡ r
    → s.state ≡ opened
    → IsCounted s
    → Good [] s (answered_with r s)
unfolding answered_with items
answered_with-Good none s e is_up h = inr (is_up, refl, sym (append-nil (stream s)), h)
answered_with-Good (some r) s e is_up h =
    let waits : awaited_size s.awaited ≡ r.size = ap awaited_size e in
    let t : Socket = record s { awaited = none; buffered = s.buffered - r.size } in
    if_elim (Good [] s) (is_open s)
      (λ going.
        flush-Good [] s t is_up refl (unfold stream in sym (append-nil (stream s)))
          (omega (arith, h, waits)))
      (λ gone. absurd (not_open s is_up gone))

-- What a delivery leaves alone.
abbrev pub Kept : Socket → Socket → Type 0
Kept s t =
    (stream t ≡ stream s) × (t.state ≡ s.state) × (t.http ≡ s.http) × (IsCounted s → IsCounted t)

pub deliver_frames-Kept : (fs : List Numbered) (s : Socket) → Kept s (deliver_frames fs s)
unfolding deliver_frames stream
deliver_frames-Kept [] s = (refl, refl, refl, λ h. h)
deliver_frames-Kept (f ∷ fs) s =
    if_elim (λ (u : Socket). Kept s (deliver_frames fs u)) (leb f.seq s.after)
      (λ seen. deliver_frames-Kept fs s)
      (λ new.
        deliver_frames-Kept fs
          (record s { delivered = s.delivered ++ f.frame ∷ []; after = f.seq }))

deliver-Good :
    (r : Response) (s : Socket) → s.state ≡ opened → IsCounted s → Good [] s (deliver r s)
unfolding deliver items
deliver-Good r s is_up h =
    let t = deliver_frames r.frames s in
    let (same_stream, state, http, counted) = deliver_frames-Kept r.frames s in
    let is_opened : is_open s ≡ true = rw is_up refl in
    rw is_opened (
      if_elim (Good [] s) r.is_last (λ last. inl (finish-closed t))
        (λ more. inr (state ∙ is_up, http, same_stream ∙ sym (append-nil (stream s)), counted h)))

send_open-Good :
    (f : Frame) (s : Socket)
    → s.state ≡ opened
    → s.http ≡ true
    → IsCounted s
    → Good (f ∷ []) s (send_open f s)
unfolding send_open
send_open-Good f s is_up http h =
    if_elim (Good (f ∷ []) s) s.http (λ yes. send_http-Good f s is_up h) (λ no. ground arith)

pub step-Good :
    (e : Event) (s : Socket)
    → s.state ≡ opened
    → s.http ≡ true
    → IsCounted s
    → Good (sent (e ∷ [])) s (step e s)
unfolding step sent send failed fail items
step-Good (send_event f) s is_up http h =
    subst (Good (f ∷ []) s) (ap (λ st. or_same (send_in st f s) s) (sym is_up))
      (send_open-Good f s is_up http h)
step-Good microtask s is_up http h = flush-Good [] s s is_up refl (sym (append-nil (stream s))) h
step-Good answer s is_up http h = unfold answered in answered_with-Good s.awaited s refl is_up h
step-Good failure s is_up http h = inl (finish-closed (record s { awaited = none }))
step-Good close_event s is_up http h = inl (finish-closed s)
step-Good (response r) s is_up http h = deliver-Good r s is_up h
