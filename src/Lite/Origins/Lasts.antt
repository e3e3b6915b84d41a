-- ===== src/Lite/Origins/Lasts.antt =====
-- An origin that is registered stays until as many others are used as the registry may hold.
use vibetop.Base.{
  ◌⊎◌, ℕ, ◌+◌, ◌≤◌, ◌<◌, ◌≡◌, refl, subst, ◌∙◌, ap, false, Option, none, some, List, [], ◌∷◌,
  length, Text, same_refl, lookup, put, remove, lookup-remove, bind-some, arith, Option-cases, inl,
  inr, is_nil,
}
use vibetop.Lite.Url.{Url, upstream_url}
use vibetop.Lite.Origins.{
  Config, Registry, nothing, physical_of, add_new, register_origin, register, original, make_room,
}
use vibetop.Lite.Origins.Maps.{host_of, HostLaw, make_room-IsMaps}
use vibetop.Lite.Origins.Recent.{after, after_self, IsAlone, IsRecent, register_origin-IsRecent}
use vibetop.Lite.Origins.Kept.{
  run, registry_after, IsRegistry, run-IsRegistry, start, register_origin-Registered,
}
use vibetop.Lite.Origins.Stays.{IsAnswered, register_origin-IsAnswered}

module _ (parse : Text → Option Url) (digest : Text → Text → Text) (config : Config)
    (o : Text) where
  -- Every other origin that is asked for has another host.
  abbrev pub AllAlone : List Text → Type 0
  AllAlone [] = Unit
  AllAlone (input ∷ inputs) =
      ((u : Url) → upstream_url parse input ≡ some u → IsAlone parse digest config o u.origin [])
      × AllAlone inputs

  module _ (law : HostLaw parse digest config) (some_room : 1 ≤ config.limit) where
    -- A registration, or the registry as it is.
    register-cases :
        (input : Text) (s : Registry) {P : Registry → Type 0}
        → P s
        → ((u : Url) (t : Registry) (p : Text)
            → upstream_url parse input ≡ some u
            → register_origin parse digest config u.origin s ≡ some (t, p)
            → P t)
        → P (registry_after parse digest config (register parse digest config input s) s)
    unfolding register
    register-cases input s {P} stay change =
        go (Option-cases (register parse digest config input s))
      where
        go :
            (register parse digest config input s ≡ none)
              ⊎ ((r : Registry × Text) × (register parse digest config input s ≡ some r))
            → P (registry_after parse digest config (register parse digest config input s) s)
        go (inl bad) = rw bad stay
        go (inr ((t, p), good)) =
            let (u, e, h) = bind-some (upstream_url parse input) _ good in
            rw good (change u t p e h)

    run-IsAnswered :
        (inputs : List Text) (s : Registry)
        → IsRegistry parse digest config law some_room s
        → IsAnswered parse digest config law o s
        → AllAlone inputs
        → IsAnswered parse digest config law o (run parse digest config inputs s)
    unfolding run
    run-IsAnswered [] s ok now a = now
    run-IsAnswered (input ∷ inputs) s ok now (only, a) =
        run-IsAnswered inputs _ (run-IsRegistry parse digest config law some_room (input ∷ []) s ok)
          (register-cases input s {P = IsAnswered parse digest config law o} now (λ u t p e h.
            register_origin-IsAnswered parse digest config law o u.origin s t p ok.maps now
              (only u e) h))
          a

    run-IsRecent :
        (inputs : List Text) (n : ℕ) (s : Registry)
        → IsRegistry parse digest config law some_room s
        → IsRecent parse digest config o n s
        → AllAlone inputs
        → n + length inputs < config.limit
        → (m : ℕ) × IsRecent parse digest config o m (run parse digest config inputs s)
    unfolding run
    run-IsRecent [] n s ok now a few = (n, now)
    run-IsRecent (input ∷ inputs) n s ok now (only, a) few =
        run-IsRecent inputs (n + 1) _
          (run-IsRegistry parse digest config law some_room (input ∷ []) s ok)
          (register-cases input s {P = IsRecent parse digest config o (n + 1)}
            (record {
              held = now.held;
              rank = omega (arith, now.rank);
              answered = now.answered;
              alone = now.alone;
            })
            (λ u t p e h.
              register_origin-IsRecent parse digest config o law u.origin n s t p ok.maps now
                (omega (arith, few)) (only u e) h))
          a (omega (arith, few))

    lookup-original :
        (s : Registry)
        → is_nil o ≡ false
        → lookup (host_of parse digest config o) s.by_host ≡ some o
        → original parse digest config (physical_of parse digest config o) s ≡ some o
    unfolding original
    lookup-original s full found =
        let (u, e, own, web) = law o in
        rw (e, web, same_refl config.protocol, own, found, full) refl

    -- The origin that is registered comes last.
    register_origin-last :
        (s t : Registry) (p : Text)
        → IsRegistry parse digest config law some_room s
        → register_origin parse digest config o s ≡ some (t, p)
        → after o t.by_origin ≡ 0
    unfolding register_origin add_new
    register_origin-last s t p ok h = elim (Option-cases (lookup o s.by_origin)) [
      | inr (q, there) ↦
          let e : put o q (remove o s.by_origin) ≡ t.by_origin = ground (arith, h, there) in
          let gone : lookup o (remove o s.by_origin) ≡ none =
            ground (arith, lookup-remove o o s.by_origin, same_refl o) in
          subst (λ m. after o m ≡ 0) e (after_self o q (remove o s.by_origin) gone)
      | inl new ↦
          let (r, made, h₁) = bind-some (make_room parse digest config s) _ (added new) in
          let (v, f, h₂) = bind-some (parse (physical_of parse digest config o)) _ h₁ in
          let (_, _, absent) =
            make_room-IsMaps parse digest config law s r some_room ok.maps ok.few made in
          let e : put o (physical_of parse digest config o) r.by_origin ≡ t.by_origin =
            ground (arith, h₂) in
          subst (λ m. after o m ≡ 0) e
            (after_self o (physical_of parse digest config o) r.by_origin (absent o new))
    ]
      where
        added : lookup o s.by_origin ≡ none → add_new parse digest config o s ≡ some (t, p)
        added new = ground (arith, h, new)

    -- An origin that has been registered, whatever was registered before, is answered for its address as long as after it
    -- fewer registrations are made than the registry may hold, where no other of the origins has its host.
    pub original-run :
        (before later : List Text) (input : Text) (u : Url) (t : Registry) (p : Text)
        → is_nil o ≡ false
        → upstream_url parse input ≡ some u
        → u.origin ≡ o
        → register parse digest config input (run parse digest config before nothing) ≡ some (t, p)
        → AllAlone before
        → AllAlone later
        → length later < config.limit
        → original parse digest config
            (physical_of parse digest config o)
            (run parse digest config later t)
          ≡ some o
    unfolding register lookup
    original-run before later input u t p full e is_o h a b few =
        let s = run parse digest config before nothing in
        let ok =
          run-IsRegistry parse digest config law some_room before nothing
            (start parse digest config law some_room) in
        let now =
          run-IsAnswered before nothing (start parse digest config law some_room)
            (record { answered = λ held. absurd (cc); alone = tt }) a in
        let (v, f, h₁) = bind-some (upstream_url parse input) _ h in
        let same_url : v ≡ u = ground (arith, e, f) in
        let registered : register_origin parse digest config o s ≡ some (t, p) =
          subst (λ x. register_origin parse digest config x s ≡ some (t, p))
            (ap (λ (x : Url). x.origin) same_url ∙ is_o) h₁ in
        let done =
          register_origin-Registered parse digest config law some_room o s t p ok.maps ok.few
            registered in
        let answers =
          register_origin-IsAnswered parse digest config law o o s t p ok.maps now (λ _. refl)
            registered in
        let last = register_origin-last s t p ok registered in
        let (_, recent) =
          run-IsRecent later 0 t (record { maps = done.maps; few = done.few })
            (record {
              held = done.there;
              rank = omega (arith, last);
              answered = answers.answered done.there;
              alone = answers.alone;
            })
            b (omega (arith, few)) in
        lookup-original _ full recent.answered
