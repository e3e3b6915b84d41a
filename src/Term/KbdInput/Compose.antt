-- ===== src/Term/KbdInput/Compose.antt =====
-- The cardinal rule of the forwarder: an input method's intermediate text never reaches the shell.
use vibetop.Base.{
  ℕ, ◌≡◌, refl, ◌∙◌, true, false, none, some, List, [], ◌∷◌, ◌++◌, map, append-nil, arith,
}
use vibetop.Term.KbdInput.{
  Forwarder, Event, input, composition_start, composition_end, fire, delta, step, run,
}
use vibetop.Term.KbdInput.Mirror.{run-append}

-- The overlay's text changes while the input method composes it.
abbrev pub composed : List (List ℕ) → List Event
composed vs = map (λ v. input v true) vs

step-composed :
    (safety : ℕ) (v : List ℕ) (s : Forwarder)
    → step safety s (input v true) ≡ (record s { timer = some (v, safety) }, [])
unfolding step
step-composed safety v s = ground arith

run-composed :
    (safety : ℕ) (vs : List (List ℕ)) (s : Forwarder)
    → let r = run safety s (composed vs) in (r.1 ≡ []) × (r.0.last_sent ≡ s.last_sent)
unfolding run
run-composed safety [] s = (refl, refl)
run-composed safety (v ∷ vs) s =
    let (silent, kept) = run-composed safety vs (record s { timer = some (v, safety) }) in
    (rw (step-composed safety v s) silent, rw (step-composed safety v s, run) kept)

run-commit :
    (safety : ℕ) (v : List ℕ) (s : Forwarder)
    → run safety s (composition_end v ∷ fire ∷ [])
      ≡ (record { last_sent = v; composing = false; timer = none }, delta v s.last_sent)
unfolding run step
run-commit safety v s = ground (arith, append-nil (delta v s.last_sent))

-- From any state, a composition that shows any intermediate texts sends nothing, and ending it with
-- the text `v` sends, when the armed timer fires, the delta to `v` from the text that was there
-- before the composition: no intermediate text leaves a trace.
run-composition :
    (safety : ℕ) (vs : List (List ℕ)) (v : List ℕ) (s : Forwarder)
    → ((run safety s (composition_start ∷ composed vs)).1 ≡ [])
      × (run safety s ((composition_start ∷ composed vs) ++ composition_end v ∷ fire ∷ [])
          ≡ (record { last_sent = v; composing = false; timer = none }, delta v s.last_sent))
unfolding run step
run-composition safety vs v s =
    let t = record s { composing = true; timer = none } in
    let (silent, kept) = run-composed safety vs t in
    let u = (run safety t (composed vs)).0 in
    (
      silent,
      run-append safety (composed vs) (composition_end v ∷ fire ∷ []) t
          ∙ rw (silent, run-commit safety v u, kept) refl,
    )
