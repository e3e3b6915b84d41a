-- ===== src/Term/KbdInput/Mirror.antt =====
-- The forwarder keeps the shell's line equal to what the overlay shows.
use vibetop.Base.{
  ℕ, ◌≡◌, refl, sym, ◌∙◌, ap, false, not, ◌&&◌, ◌||◌, subst, Option, none, some, List, [], ◌∷◌,
  ◌++◌, arith, Bool-cases, inl, inr, reverse, append_assoc, append-nil, reverse-reverse, ◌⊎◌,
}
use vibetop.Term.KbdInput.{
  Forwarder, Event, input, composition_start, composition_end, enter, tab, backspace_empty, reset,
  fire, is_empty, flush, fire_timer, step, run, cr_code, cancel,
}
use vibetop.Term.KbdInput.Line.{Shell, feed, IsPlain, feed-append, feed-delta, at_line}

-- Typing events: all but Enter, and the keys that reach the shell past the overlay.
abbrev pub IsTyping : Event → Type 0
IsTyping (input v _) = IsPlain v
IsTyping composition_start = Unit
IsTyping (composition_end v) = IsPlain v
IsTyping fire = Unit
IsTyping _ = ⊥

abbrev pub AllTyping : List Event → Type 0
AllTyping [] = Unit
AllTyping (e ∷ es) = IsTyping e × AllTyping es

-- An armed timer holds a text without control characters.
abbrev pub TimerIsPlain : Option (List ℕ × ℕ) → Type 0
TimerIsPlain none = Unit
TimerIsPlain (some (v, _)) = IsPlain v

-- The line ends in what the forwarder believes that it holds; `p` is what stood before it.
abbrev pub mirror : Shell → List ℕ → Forwarder → Shell
mirror sh p s = at_line sh (reverse s.last_sent ++ p)

flush-mirror :
    (s : Forwarder) (v p : List ℕ) (sh : Shell)
    → IsPlain v
    → feed (flush s v).1 (mirror sh p s) ≡ mirror sh p (flush s v).0
unfolding flush feed
flush-mirror s v p sh h =
    elim (Bool-cases (is_empty v && not (is_empty s.last_sent) && s.composing)) [
      | inl skip ↦ rw skip
      | inr send ↦ rw send (feed-delta v s.last_sent p sh h)
    ]

flush-timer : (s : Forwarder) (v : List ℕ) → (flush s v).0.timer ≡ none
unfolding flush
flush-timer s v = ground arith

fire_timer-timer :
    (t : Option (List ℕ × ℕ)) (s : Forwarder) → s.timer ≡ t → (fire_timer t s).0.timer ≡ none
unfolding fire_timer
fire_timer-timer none s e = e
fire_timer-timer (some (v, ms)) s e = flush-timer s v

fire_timer-mirror :
    (t : Option (List ℕ × ℕ)) (s : Forwarder) (p : List ℕ) (sh : Shell)
    → TimerIsPlain t
    → feed (fire_timer t s).1 (mirror sh p s) ≡ mirror sh p (fire_timer t s).0
unfolding fire_timer feed
fire_timer-mirror none s p sh h = refl
fire_timer-mirror (some (v, ms)) s p sh h = flush-mirror s v p sh h

step-mirror :
    (safety : ℕ) (s : Forwarder) (e : Event) (p : List ℕ) (sh : Shell)
    → IsTyping e
    → TimerIsPlain s.timer
    → feed (step safety s e).1 (mirror sh p s) ≡ mirror sh p (step safety s e).0
unfolding step feed
step-mirror safety s (input v c) p sh h k = elim (Bool-cases (s.composing || c)) [
  | inl hold ↦ rw hold
  | inr now ↦ rw now (flush-mirror (cancel s) v p sh h)
]
step-mirror safety s composition_start p sh h k = refl
step-mirror safety s (composition_end v) p sh h k = refl
step-mirror safety s fire p sh h k = fire_timer-mirror s.timer s p sh k
step-mirror safety s (enter v) p sh h k = absurd h
step-mirror safety s tab p sh h k = absurd h
step-mirror safety s backspace_empty p sh h k = absurd h
step-mirror safety s reset p sh h k = absurd h

step-TimerIsPlain :
    (safety : ℕ) (s : Forwarder) (e : Event)
    → IsTyping e
    → TimerIsPlain s.timer
    → TimerIsPlain (step safety s e).0.timer
unfolding step
step-TimerIsPlain safety s (input v c) h k = elim (Bool-cases (s.composing || c)) [
  | inl hold ↦ rw hold h
  | inr now ↦ rw now (subst TimerIsPlain (sym (flush-timer (cancel s) v)) tt)
]
step-TimerIsPlain safety s composition_start h k = tt
step-TimerIsPlain safety s (composition_end v) h k = h
step-TimerIsPlain safety s fire h k = subst TimerIsPlain (sym (fire_timer-timer s.timer s refl)) tt
step-TimerIsPlain safety s (enter v) h k = absurd h
step-TimerIsPlain safety s tab h k = absurd h
step-TimerIsPlain safety s backspace_empty h k = absurd h
step-TimerIsPlain safety s reset h k = absurd h

run-mirror :
    (safety : ℕ) (es : List Event) (s : Forwarder) (p : List ℕ) (sh : Shell)
    → AllTyping es
    → TimerIsPlain s.timer
    → feed (run safety s es).1 (mirror sh p s) ≡ mirror sh p (run safety s es).0
unfolding run feed
run-mirror safety [] s p sh h k = refl
run-mirror safety (e ∷ es) s p sh (h, hs) k =
    rw (feed-append, step-mirror safety s e p sh h k)
      (run-mirror safety es (step safety s e).0 p sh hs (step-TimerIsPlain safety s e h k))

pub run-append :
    (safety : ℕ) (es fs : List Event) (s : Forwarder)
    → run safety s (es ++ fs) ≡ (
      (run safety (run safety s es).0 fs).0,
      (run safety s es).1 ++ (run safety (run safety s es).0 fs).1,
    )
unfolding run
run-append safety [] fs s = refl
run-append safety (e ∷ es) fs s = rw (run-append safety es fs (step safety s e).0, append_assoc)

step-enter :
    (safety : ℕ) (s : Forwarder) (v : List ℕ)
    → (step safety s (enter v)).1 ≡ (flush (cancel s) v).1 ++ cr_code ∷ []
unfolding step
step-enter safety s v = refl

flush-last_sent :
    (s : Forwarder) (v : List ℕ)
    → (s.composing ≡ false) ⊎ (is_empty v ≡ false)
    → (flush (cancel s) v).0.last_sent ≡ v
unfolding flush cancel
flush-last_sent s v h = ground arith

feed_cr :
    (v : List ℕ) (sh : Shell)
    → feed (cr_code ∷ []) (at_line sh (reverse v ++ []))
      ≡ record { line = []; entered = v ∷ sh.entered }
unfolding feed
feed_cr v sh = rw (append-nil, reverse-reverse)

-- The line before the last event of a session mirrors the state that this event meets.
feed-run_last :
    (safety : ℕ) (es : List Event) (e : Event) (s : Forwarder) (p : List ℕ) (sh : Shell)
    → AllTyping es
    → TimerIsPlain s.timer
    → feed (run safety s (es ++ e ∷ [])).1 (mirror sh p s)
      ≡ feed (step safety (run safety s es).0 e).1 (mirror sh p (run safety s es).0)
unfolding run
feed-run_last safety es e s p sh h k =
    rw (run-append safety es (e ∷ []) s, append-nil, feed-append, run-mirror safety es s p sh h k)

module _ (safety : ℕ) (es : List Event) (s : Forwarder) (v : List ℕ) (sh : Shell) where
  -- After any such session on a fresh line, Enter with the text `v` enters exactly `v` and leaves
  -- an empty line, unless the overlay is empty in the middle of a composition.
  entered-run-enter :
      AllTyping es
      → TimerIsPlain s.timer
      → IsPlain v
      → ((run safety s es).0.composing ≡ false) ⊎ (is_empty v ≡ false)
      → feed (run safety s (es ++ enter v ∷ [])).1 (mirror sh [] s)
        ≡ record { line = []; entered = v ∷ sh.entered }
  unfolding run cancel
  entered-run-enter h k hv c =
      let t = (run safety s es).0 in
      feed-run_last safety es (enter v) s [] sh h k
      ∙ ap (λ sent. feed sent (mirror sh [] t)) (step-enter safety t v)
      ∙ feed-append (flush (cancel t) v).1 (cr_code ∷ []) (mirror sh [] t)
      ∙ ap (λ x. feed (cr_code ∷ []) x) (flush-mirror (cancel t) v [] sh hv)
      ∙ ap (λ l. feed (cr_code ∷ []) (at_line sh (reverse l ++ []))) (flush-last_sent t v c)
      ∙ feed_cr v sh
