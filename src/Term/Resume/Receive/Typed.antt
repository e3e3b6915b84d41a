-- ===== src/Term/Resume/Receive/Typed.antt =====
-- The input that waits for the first frame.
use vibetop.Base.{
  ◌≡◌, refl, sym, ◌∙◌, ap, Bool, true, false, not, List, [], ◌∷◌, ◌++◌, arith, length, Text,
  Bool-cases, inl, inr, append_assoc, append-nil, keep, length-keep,
}
use vibetop.Term.Resume.Receive.{Input, is_typed, send, release_input}

-- What happens to a socket's input: the page sends a frame, or `receive` releases what waits.
pub data Event : Type 0 where
  sends : Text → Event
  releases : Event

pub step_input : Event → Input → Input
unfolding send release_input
step_input (sends d) s = send d s
step_input releases s = release_input s

unfoldable pub run_input : List Event → Input → Input
unfolding step_input
run_input [] s = s
run_input (e ∷ es) s = run_input es (step_input e s)

-- The frames that the page has sent.
unfoldable pub frames : List Event → List Text
frames [] = []
frames (sends d ∷ es) = d ∷ frames es
frames (releases ∷ es) = frames es

abbrev pub untyped : Text → Bool
untyped d = not (is_typed d)

-- Only typed input waits, and none once it has been released.
pub record IsOrderly (s : Input) : Type 0 where
  pub typed : keep is_typed s.waiting ≡ s.waiting
  pub released : s.is_ready ≡ true → s.waiting ≡ []

keep-append : (p : Text → Bool) (xs ys : List Text) → keep p (xs ++ ys) ≡ keep p xs ++ keep p ys
keep-append p [] ys = refl
keep-append p (x ∷ xs) ys = ground (arith, keep-append p xs ys)

send-IsOrderly : (d : Text) (s : Input) → IsOrderly s → IsOrderly (send d s)
unfolding send
send-IsOrderly d s h = ground (arith, keep-append is_typed s.waiting (d ∷ []), h.typed)

-- The typed input that has been sent and that waits, unless the socket has been closed.
abbrev typed_of : Input → List Text
typed_of s = keep is_typed s.sent ++ s.waiting

send-typed :
    (d : Text) (s : Input)
    → IsOrderly s
    → (send d s).closed ≡ false
    → typed_of (send d s) ≡ typed_of s ++ keep is_typed (d ∷ [])
unfolding send
send-typed d s h on = ground (
  arith,
  h.released,
  on,
  keep-append is_typed s.sent (d ∷ []),
  append_assoc (keep is_typed s.sent) s.waiting (d ∷ []),
  append-nil (keep is_typed s.sent),
  append-nil (keep is_typed s.sent ++ s.waiting),
  append-nil (keep is_typed s.sent ++ d ∷ []),
)

send-untyped :
    (d : Text) (s : Input)
    → keep untyped (send d s).sent ≡ keep untyped s.sent ++ keep untyped (d ∷ [])
unfolding send
send-untyped d s =
    ground (arith, keep-append untyped s.sent (d ∷ []), append-nil (keep untyped s.sent))

keep_none : (xs : List Text) → keep is_typed xs ≡ xs → keep untyped xs ≡ []
keep_none [] h = refl
keep_none (x ∷ xs) h = elim (Bool-cases (is_typed x)) [
  | inl yes_typed ↦ ground (arith, h, yes_typed, keep_none xs)
  | inr no_typed ↦ absurd (too_long no_typed)
]
  where
    too_long : is_typed x ≡ false → ⊥
    too_long n = ground (arith, h, n, length-keep is_typed xs, ap (length {A = Text}) h)

step_input-closed : (e : Event) (s : Input) → s.closed ≡ true → (step_input e s).closed ≡ true
unfolding step_input
step_input-closed (sends d) s h = ground (arith, h)
step_input-closed releases s h = h

run_input-closed : (es : List Event) (s : Input) → s.closed ≡ true → (run_input es s).closed ≡ true
unfolding run_input
run_input-closed [] s h = h
run_input-closed (e ∷ es) s h = run_input-closed es (step_input e s) (step_input-closed e s h)

open_before : (es : List Event) (s : Input) → (run_input es s).closed ≡ false → s.closed ≡ false
open_before es s on = elim (Bool-cases s.closed) [
  | inl shut ↦ cc (run_input-closed es s shut)
  | inr still ↦ still
]

-- While its socket is not closed, the typed input that has gone to the server and that waits is just
-- what the page has sent, in order; and of the other frames, such as a resize, each has gone at once.
pub run_input-typed :
    (es : List Event) (s : Input)
    → IsOrderly s
    → (run_input es s).closed ≡ false
    → (keep is_typed (run_input es s).sent ++ (run_input es s).waiting
        ≡ (keep is_typed s.sent ++ s.waiting) ++ keep is_typed (frames es))
      × (keep untyped (run_input es s).sent ≡ keep untyped s.sent ++ keep untyped (frames es))
unfolding run_input step_input release_input frames
run_input-typed [] s h on =
    (sym (append-nil (keep is_typed s.sent ++ s.waiting)), sym (append-nil (keep untyped s.sent)))
run_input-typed (sends d ∷ es) s h on =
    let t = send d s in
    let (typed, untyped_sent) = run_input-typed es t (send-IsOrderly d s h) on in
    let open_still : t.closed ≡ false = open_before es t on in
    (
      typed
          ∙ ap (λ xs. xs ++ keep is_typed (frames es)) (send-typed d s h open_still)
          ∙ append_assoc (keep is_typed s.sent ++ s.waiting) (keep is_typed (d ∷ []))
              (keep is_typed (frames es))
          ∙ ap (λ xs. (keep is_typed s.sent ++ s.waiting) ++ xs)
              (sym (keep-append is_typed (d ∷ []) (frames es))),
      untyped_sent
          ∙ ap (λ xs. xs ++ keep untyped (frames es)) (send-untyped d s)
          ∙ append_assoc (keep untyped s.sent) (keep untyped (d ∷ [])) (keep untyped (frames es))
          ∙ ap (λ xs. keep untyped s.sent ++ xs) (sym (keep-append untyped (d ∷ []) (frames es))),
    )
run_input-typed (releases ∷ es) s h on =
    let t = release_input s in
    let (typed, untyped_sent) =
      run_input-typed es t (record { typed = refl; released = λ r. refl }) on in
    (
      typed
          ∙ ap (λ xs. xs ++ keep is_typed (frames es))
              (append-nil (keep is_typed (s.sent ++ s.waiting))
                ∙ keep-append is_typed s.sent s.waiting
                ∙ ap (λ xs. keep is_typed s.sent ++ xs) h.typed),
      untyped_sent
          ∙ ap (λ xs. xs ++ keep untyped (frames es))
              (keep-append untyped s.sent s.waiting
                ∙ ap (λ xs. keep untyped s.sent ++ xs) (keep_none s.waiting h.typed)
                ∙ append-nil (keep untyped s.sent)),
    )
