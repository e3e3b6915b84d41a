-- ===== src/Lite/Origins/Kept.antt =====
-- What the registry answers after any registrations.
use vibetop.Base.{
  ◌⊎◌, ◌≤◌, ◌≡◌, subst, ◌∙◌, ap, Option, none, some, List, [], ◌∷◌, length, Text, same, same_iff,
  lookup, put, remove, lookup-put, lookup-remove, lookup-put_same, length-put, length-remove_old,
  bind-some, guard-some, arith, Option-cases, inl, inr, AllEntries-put, AllEntries-remove,
  AllEntries-lookup, KeysDistinct-put, KeysDistinct-remove,
}
use vibetop.Lite.Url.{Url, upstream_url}
use vibetop.Lite.Origins.{
  Config, Registry, nothing, physical_of, register_origin, register, original,
}
use vibetop.Lite.Origins.Maps.{host_of, HostLaw, IsMaps, IsPhysical, Registered, add_new-Registered}

module _ (parse : Text → Option Url) (digest : Text → Text → Text) (config : Config) where
  abbrev pub registry_after : Option (Registry × Text) → Registry → Registry
  registry_after none s = s
  registry_after (some (t, _)) s = t

  -- Registrations in order; one that fails leaves the registry as it is.
  unfoldable pub run : List Text → Registry → Registry
  unfolding register
  run [] s = s
  run (input ∷ inputs) s = run inputs (registry_after (register parse digest config input s) s)

  module _ (law : HostLaw parse digest config) (some_room : 1 ≤ config.limit) where
    touch-Registered :
        (o q : Text) (s : Registry)
        → IsMaps parse digest config s
        → length s.by_origin ≤ config.limit
        → lookup o s.by_origin ≡ some q
        → Registered parse digest config law o
            (record s { by_origin = put o q (remove o s.by_origin) })
            q
    touch-Registered o q s ok few there = record {
      maps = record {
        distinct =
            KeysDistinct-put o q (remove o s.by_origin)
              (KeysDistinct-remove o s.by_origin ok.distinct);
        physicals =
            AllEntries-put (IsPhysical parse digest config) o q (remove o s.by_origin) phys
              (AllEntries-remove (IsPhysical parse digest config) o s.by_origin ok.physicals);
        hosts = λ x i e.
            let (own, old) = ok.hosts x i e in
            (
              own,
              ground (
                arith,
                old,
                lookup-put o i q (remove o s.by_origin),
                lookup-remove o i s.by_origin,
                same_iff o i,
                there,
                ap (λ k. lookup k s.by_origin) {x = o} {y = i},
              ),
            );
      };
      few = omega (
        arith,
        few,
        length-put o q (remove o s.by_origin),
        length-remove_old o s.by_origin there,
      );
      physical = phys;
      there = lookup-put_same o q (remove o s.by_origin) ∙ ap some phys;
    }
      where
        phys : q ≡ physical_of parse digest config o
        phys = AllEntries-lookup (IsPhysical parse digest config) o s.by_origin ok.physicals there

    pub register_origin-Registered :
        (o : Text) (s t : Registry) (p : Text)
        → IsMaps parse digest config s
        → length s.by_origin ≤ config.limit
        → register_origin parse digest config o s ≡ some (t, p)
        → Registered parse digest config law o t p
    unfolding register_origin
    register_origin-Registered o s t p ok few h = elim (Option-cases (lookup o s.by_origin)) [
      | inl new ↦
          add_new-Registered parse digest config law o s t p some_room ok few new
            (ground (arith, h, new))
      | inr (q, there) ↦
          let is_t : record s { by_origin = put o q (remove o s.by_origin) } ≡ t =
            ground (arith, h, there) in
          let is_p : q ≡ p = ground (arith, h, there) in
          subst (λ x. Registered parse digest config law o x p) is_t
            (subst
              (λ x.
                Registered parse digest config law o
                  (record s { by_origin = put o q (remove o s.by_origin) }) x)
              is_p (touch-Registered o q s ok few there))
    ]

    -- The maps agree and are within the limit.
    pub record IsRegistry (s : Registry) : Type 0 where
      pub maps : IsMaps parse digest config s
      pub few : length s.by_origin ≤ config.limit

    pub run-IsRegistry :
        (inputs : List Text) (s : Registry) → IsRegistry s → IsRegistry (run inputs s)
    unfolding run register
    run-IsRegistry [] s ok = ok
    run-IsRegistry (input ∷ inputs) s ok =
        run-IsRegistry inputs _ (registers (Option-cases (register parse digest config input s)))
      where
        registers :
            (register parse digest config input s ≡ none)
              ⊎ ((r : Registry × Text) × (register parse digest config input s ≡ some r))
            → IsRegistry (registry_after (register parse digest config input s) s)
        registers (inl bad) = rw bad ok
        registers (inr ((t, p), good)) =
            let (u, e, h) = bind-some (upstream_url parse input) _ good in
            let done = register_origin-Registered u.origin s t p ok.maps ok.few h in
            rw good (record { maps = done.maps; few = done.few })

    pub start : IsRegistry nothing
    unfolding lookup
    start = record {
      maps = record { distinct = tt; physicals = tt; hosts = λ h o e. absurd (cc) };
      few = omega arith;
    }

    -- After any registrations there are no more origins than the limit, and an address that is answered with an
    -- origin is on the protocol of the registry and on the host of that origin, which is still registered.
    pub run-original_host :
        (inputs : List Text) (physical o : Text)
        → original parse digest config physical (run inputs nothing) ≡ some o
        → (length (run inputs nothing).by_origin ≤ config.limit)
          × (lookup o (run inputs nothing).by_origin ≡ some (physical_of parse digest config o))
          × (u : Url) × (parse physical ≡ some u)
          × (u.host ≡ host_of parse digest config o)
          × (u.protocol ≡ config.protocol)
    unfolding original
    run-original_host inputs physical o h =
        let ok = run-IsRegistry inputs nothing start in
        let (u, e, h₁) = bind-some (parse physical) _ h in
        let (web, h₂) = guard-some (same u.protocol config.protocol) _ h₁ in
        let (o', found, h₃) = bind-some (lookup u.host (run inputs nothing).by_host) _ h₂ in
        let is_o : o' ≡ o = ground (arith, h₃) in
        let (own, there) = ok.maps.hosts u.host o (found ∙ ap some is_o) in
        (ok.few, there, u, e, own, (same_iff _ _).0 web)
