-- ===== src/Term/Resume/Receive/Fuel.antt =====
-- The loop ends: its fuel is enough.
use vibetop.Base.{
  ℕ, zero, suc, ◌<◌, ◌≡◌, refl, ap, Bool, true, false, Option, none, some, List, [], ◌∷◌, ◌++◌,
  arith, length, Text, Bool-cases, inl, inr,
}
use vibetop.Term.Resume.{
  Parsed, Action, changed, close, Session, Receiver, Turn, plain, unfinished, broken, envelope,
  scan, output,
}
use vibetop.Term.Resume.Turns.{left_over, left_over-lt}
use vibetop.Term.Resume.Receive.{Handled, then_do, handle, after_envelope, take_turn, loop, receive}

abbrev Result : Type 0
Result = Option (Receiver × List Action)

module _ (parse : Text → Parsed) (atob : Text → Option Text) where
  -- A turn depends on the rest of the loop at what it leaves only.
  take_turn_ext :
      (k l : Text → Session → Result) (s : Session) (t : Turn)
      → ((u : Session) → k (left_over t) u ≡ l (left_over t) u)
      → take_turn parse atob k s t ≡ take_turn parse atob l s t
  unfolding take_turn after_envelope
  take_turn_ext k l s (plain before kept) same_rest = refl
  take_turn_ext k l s (unfinished before left) same_rest = refl
  take_turn_ext k l s (broken before left) same_rest = ap (then_do (output before)) (same_rest s)
  take_turn_ext k l s (envelope before body after) same_rest =
      let h = handle parse atob body s in ground (arith, same_rest h.session)

  pub loop_enough :
      (f g : ℕ) (pending : Text) (s : Session)
      → length pending < f
      → length pending < g
      → loop parse atob f pending s ≡ loop parse atob g pending s
  unfolding loop
  loop_enough zero g pending s hf hg = absurd (omega arith)
  loop_enough (suc f) zero pending s hf hg = absurd (omega arith)
  loop_enough (suc f) (suc g) [] s hf hg = refl
  loop_enough (suc f) (suc g) (c ∷ xs) s hf hg =
      let shorter = left_over-lt (c ∷ xs) (omega arith) in
      take_turn_ext (loop parse atob f) (loop parse atob g) s (scan (c ∷ xs))
        (λ u. loop_enough f g (left_over (scan (c ∷ xs))) u (omega arith) (omega arith))

  -- The loop with enough fuel.
  abbrev pub run : Text → Session → Result
  run pending s = loop parse atob (suc (length pending)) pending s

  pub run-take_turn :
      (pending : Text) (s : Session) → run pending s ≡ take_turn parse atob run s (scan pending)
  unfolding loop
  run-take_turn [] s = refl
  run-take_turn (c ∷ xs) s =
      let left = left_over (scan (c ∷ xs)) in
      let shorter = left_over-lt (c ∷ xs) (omega arith) in
      take_turn_ext (loop parse atob (length (c ∷ xs))) run s (scan (c ∷ xs))
        (λ u. loop_enough (length (c ∷ xs)) (suc (length left)) left u shorter (omega arith))

  abbrev pub Ends : Result → Type 0
  Ends o = (r : Receiver × List Action) × (o ≡ some r)

  then_do-Ends : (before : List Action) (o : Result) → Ends o → Ends (then_do before o)
  then_do-Ends before o (r, e) = ((r.0, before ++ r.1), ap (then_do before) e)

  after_envelope-Ends :
      (k : Text → Session → Result) (after : Text) (h : Handled)
      → Ends (k after h.session)
      → Ends (after_envelope parse atob k after h)
  unfolding after_envelope
  after_envelope-Ends k after h ends = elim (Bool-cases h.threw) [
    | inl failed ↦ (
      (
        record { pending = after; session = record h.session { cache = none } },
        h.actions ++ changed ∷ close ∷ [],
      ),
      rw failed refl,
    )
    | inr fine ↦ let (r, e) = then_do-Ends h.actions (k after h.session) ends in (r, rw fine e)
  ]

  take_turn-Ends :
      (k : Text → Session → Result) (s : Session) (t : Turn)
      → ((u : Session) → Ends (k (left_over t) u))
      → Ends (take_turn parse atob k s t)
  unfolding take_turn
  take_turn-Ends k s (plain before kept) ends = (_, refl)
  take_turn-Ends k s (unfinished before left) ends = (_, refl)
  take_turn-Ends k s (broken before left) ends = then_do-Ends (output before) (k left s) (ends s)
  take_turn-Ends k s (envelope before body after) ends =
      let h = handle parse atob body s in
      then_do-Ends (output before) (after_envelope parse atob k after h)
        (after_envelope-Ends k after h (ends h.session))

  loop-Ends :
      (f : ℕ) (pending : Text) (s : Session)
      → length pending < f
      → Ends (loop parse atob f pending s)
  unfolding loop
  loop-Ends zero pending s h = absurd (omega arith)
  loop-Ends (suc f) [] s h = (_, refl)
  loop-Ends (suc f) (c ∷ xs) s h =
      let shorter = left_over-lt (c ∷ xs) (omega arith) in
      take_turn-Ends (loop parse atob f) s (scan (c ∷ xs))
        (λ u. loop-Ends f (left_over (scan (c ∷ xs))) u (omega arith))

  -- The loop over a packet ends, whatever it holds.
  pub receive-Ends :
      (current : Bool) (packet : Text) (r : Receiver) → Ends (receive parse atob current packet r)
  unfolding receive
  receive-Ends true packet r =
      loop-Ends (suc (length (r.pending ++ packet))) (r.pending ++ packet) r.session (omega arith)
  receive-Ends false packet r = ((r, []), refl)
