-- ===== src/Term/Http/Turn.antt =====
-- One turn of the sending loop, and the stream of what was sent and what is queued.
use vibetop.Base.{
  ℕ, ◌+◌, ◌≡◌, refl, sym, ◌∙◌, ap, ◌||◌, not, Option, none, some, List, [], ◌∷◌, ◌++◌, if_elim,
  arith, append_assoc, append-nil,
}
use vibetop.Term.Http.{
  Frame, Request, Socket, is_open, is_sending, size_of, next_request, pump_queue, flush,
}
use vibetop.Term.Http.Batch.{Item, items, next_request-Carries}

-- The meaning of all the requests that were made.
unfoldable pub meaning : List Request → List Item
meaning [] = []
meaning (r ∷ rs) = items r.frames ++ meaning rs

meaning-append : (rs qs : List Request) → meaning (rs ++ qs) ≡ meaning rs ++ meaning qs
unfolding meaning
meaning-append [] qs = refl
meaning-append (r ∷ rs) qs =
    ap (λ xs. items r.frames ++ xs) (meaning-append rs qs)
    ∙ sym (append_assoc (items r.frames) (meaning rs) (meaning qs))

-- What has left and what is still to leave.
unfoldable pub stream : Socket → List Item
unfolding meaning
stream s = meaning s.requests ++ items s.queue

abbrev pub awaited_size : Option Request → ℕ
awaited_size none = 0
awaited_size (some r) = r.size

-- The buffered amount is that of the queue and of the awaited request.
abbrev pub IsCounted : Socket → Type 0
IsCounted s = s.buffered ≡ size_of s.queue + awaited_size s.awaited

-- One loop turn keeps stream, count and state.
abbrev pub Keeps : Socket → Socket → Type 0
Keeps s t = (stream t ≡ stream s) × IsCounted t × (t.state ≡ s.state)

pump_queue-Keeps :
    (s : Socket) (queue : List Frame)
    → s.queue ≡ queue
    → s.awaited ≡ none
    → IsCounted s
    → Keeps s (pump_queue queue s)
unfolding pump_queue stream
pump_queue-Keeps s [] e idle h = (refl, h, refl)
pump_queue-Keeps s (first ∷ queue) e idle h =
    let (r, rest) = next_request (s.seq + 1) first queue in
    let (same_items, same_size) = next_request-Carries (s.seq + 1) first queue in
    let size : size_of s.queue ≡ size_of (first ∷ queue) = ap size_of e in
    let waits : awaited_size s.awaited ≡ 0 = ap awaited_size idle in
    (
      ap (λ xs. xs ++ items rest) (meaning-append s.requests (r ∷ []))
          ∙ append_assoc (meaning s.requests) (meaning (r ∷ [])) (items rest)
          ∙ ap (λ xs. meaning s.requests ++ xs)
              (ap (λ xs. xs ++ items rest) (append-nil (items r.frames))
                ∙ same_items
                ∙ ap items (sym e)),
      omega (arith, h, same_size, size, waits),
      refl,
    )

pub flush-Keeps : (s : Socket) → IsCounted s → Keeps s (flush s)
unfolding flush
flush-Keeps s h =
    if_elim (Keeps s) (is_sending s || not (is_open s)) (λ rest. (refl, h, refl))
      (λ go. pump_queue-Keeps s s.queue refl (ground arith) h)
