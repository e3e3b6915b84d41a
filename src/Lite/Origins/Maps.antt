-- ===== src/Lite/Origins/Maps.antt =====
-- The two maps of the registry agree: what a registration does to them.
use vibetop.Base.{
  ◌+◌, ◌≤◌, ◌≡◌, refl, sym, subst, ◌∙◌, ap, false, Option, none, some, List, [], ◌∷◌, ◌++◌, leb,
  length, Text, same, same_iff, lookup, put, remove, lookup-put, lookup-remove, lookup-put_same,
  length-put, bind-some, arith, Bool-cases, inl, inr, AllEntries, AllEntries-put, KeysDistinct,
  KeysDistinct-put,
}
use vibetop.Lite.Url.{Url}
use vibetop.Lite.Origins.{
  Config, Registry, hostname, port_suffix, physical_of, forget, make_room, add_new,
}

module _ (parse : Text → Option Url) (digest : Text → Text → Text) (config : Config) where
  abbrev pub host_of : Text → Text
  host_of o = hostname parse digest config o ++ port_suffix parse digest config

  -- The URL of a physical host is parsed as that host, under the protocol of the registry.
  abbrev pub HostLaw : Type 0
  HostLaw =
      (o : Text)
      → (u : Url) × (parse (physical_of parse digest config o) ≡ some u)
        × (u.host ≡ host_of o)
        × (u.protocol ≡ config.protocol)

  abbrev pub IsPhysical : Text → Text → Type 0
  IsPhysical o p = p ≡ physical_of parse digest config o

  -- Every origin is under its own address, and every host is that of an origin that is there.
  pub record IsMaps (s : Registry) : Type 0 where
    pub distinct : KeysDistinct s.by_origin
    pub physicals : AllEntries IsPhysical s.by_origin
    pub hosts :
        (h o : Text)
        → lookup h s.by_host ≡ some o
        → (h ≡ host_of o) × (lookup o s.by_origin ≡ some (physical_of parse digest config o))

  module _ (law : HostLaw) where
    drop_host :
        (o p : Text) (rest hosts : List (Text × Text)) (x o' : Text)
        → ((y i : Text)
            → lookup y hosts ≡ some i
            → (y ≡ host_of i)
              × (lookup i ((o, p) ∷ rest) ≡ some (physical_of parse digest config i)))
        → lookup x (remove (host_of o) hosts) ≡ some o'
        → (x ≡ host_of o') × (lookup o' rest ≡ some (physical_of parse digest config o'))
    unfolding lookup
    drop_host o p rest hosts x o' k e =
        let stays : (same (host_of o) x ≡ false) × (lookup x hosts ≡ some o') =
          ground (arith, e, lookup-remove (host_of o) x hosts) in
        let (own, there) = k x o' stays.1 in
        (
          own,
          elim (Bool-cases (same o o')) [
            | inl hit ↦
                let clash : host_of o ≡ x = ap host_of ((same_iff o o').0 hit) ∙ sym own in
                absurd (ground (arith, stays.0, (same_iff (host_of o) x).1 clash))
            | inr miss ↦ ground (arith, there, miss)
          ],
        )

    -- The oldest entry goes from both maps.
    pub forget-IsMaps :
        (s t : Registry)
        → IsMaps s
        → forget parse digest config s ≡ some t
        → IsMaps t
          × (o : Text) × (p : Text) × (s.by_origin ≡ (o, p) ∷ t.by_origin)
          × (t.by_host ≡ remove (host_of o) s.by_host)
    unfolding forget
    forget-IsMaps s t ok h = forgets s.by_origin s.by_host ok.distinct ok.physicals ok.hosts h
      where
        forgets :
            (entries hosts : List (Text × Text))
            → KeysDistinct entries
            → AllEntries IsPhysical entries
            → ((x o : Text)
                → lookup x hosts ≡ some o
                → (x ≡ host_of o) × (lookup o entries ≡ some (physical_of parse digest config o)))
            → forget parse digest config (record { by_origin = entries; by_host = hosts }) ≡ some t
            → IsMaps t
              × (o : Text) × (p : Text) × (entries ≡ (o, p) ∷ t.by_origin)
              × (t.by_host ≡ remove (host_of o) hosts)
        forgets [] hosts d a k h = absurd (cc)
        forgets ((o, p) ∷ rest) hosts (new, d) (phys, a) k h =
            let (u, e, h₁) = bind-some (parse p) _ h in
            let (v, f, own, _) = law o in
            let same_url : u ≡ v = ground (arith, e, f, ap parse phys) in
            let gone : u.host ≡ host_of o = ap (λ (x : Url). x.host) same_url ∙ own in
            let is_t : record { by_origin = rest; by_host = remove (host_of o) hosts } ≡ t =
              ground (arith, h₁, gone) in
            subst
              (λ (x : Registry).
                IsMaps x
                × (o' : Text) × (p' : Text) × ((o, p) ∷ rest ≡ (o', p') ∷ x.by_origin)
                × (x.by_host ≡ remove (host_of o') hosts))
              is_t
              (
                record {
                  distinct = d;
                  physicals = a;
                  hosts = λ x o' e. drop_host o p rest hosts x o' k e;
                },
                o,
                p,
                refl,
                refl,
              )

    pub make_room-IsMaps :
        (s t : Registry)
        → 1 ≤ config.limit
        → IsMaps s
        → length s.by_origin ≤ config.limit
        → make_room parse digest config s ≡ some t
        → IsMaps t
          × (length t.by_origin + 1 ≤ config.limit)
          × ((o : Text) → lookup o s.by_origin ≡ none → lookup o t.by_origin ≡ none)
    unfolding make_room lookup
    make_room-IsMaps s t some_room ok few h =
        elim (Bool-cases (leb config.limit (length s.by_origin))) [
          | inr room ↦
              let e : s ≡ t = ground (arith, h, room) in
              subst
                (λ (x : Registry).
                  IsMaps x
                  × (length x.by_origin + 1 ≤ config.limit)
                  × ((o : Text) → lookup o s.by_origin ≡ none → lookup o x.by_origin ≡ none))
                e (ok, ground (arith, room), λ o n. n)
          | inl full ↦
              let forgot : forget parse digest config s ≡ some t = ground (arith, h, full) in
              let (fine, o, p, entries, _) = forget-IsMaps s t ok forgot in
              (
                fine,
                omega (arith, few, ap length entries),
                λ i n. tail_none i o p t.by_origin (ap (lookup i) (sym entries) ∙ n),
              )
        ]
      where
        tail_none :
            (i o p : Text) (m : List (Text × Text))
            → lookup i ((o, p) ∷ m) ≡ none
            → lookup i m ≡ none
        tail_none i o p m n = ground (arith, n)

    -- What a registration gives.
    pub record Registered (o : Text) (t : Registry) (p : Text) : Type 0 where
      pub maps : IsMaps t
      pub few : length t.by_origin ≤ config.limit
      pub physical : p ≡ physical_of parse digest config o
      pub there : lookup o t.by_origin ≡ some (physical_of parse digest config o)

    put_hosts :
        (o : Text) (m hosts : List (Text × Text)) (x o' : Text)
        → ((y i : Text)
            → lookup y hosts ≡ some i
            → (y ≡ host_of i) × (lookup i m ≡ some (physical_of parse digest config i)))
        → lookup x (put (host_of o) o hosts) ≡ some o'
        → (x ≡ host_of o')
          × (lookup o' (put o (physical_of parse digest config o) m)
              ≡ some (physical_of parse digest config o'))
    put_hosts o m hosts x o' k e = elim (Bool-cases (same (host_of o) x)) [
      | inl hit ↦
          let is_o : o ≡ o' = ground (arith, e, hit, lookup-put (host_of o) x o hosts) in
          (
            sym ((same_iff _ _).0 hit) ∙ ap host_of is_o,
            subst
                (λ i.
                  lookup i (put o (physical_of parse digest config o) m)
                  ≡ some (physical_of parse digest config i))
                is_o (lookup-put_same o (physical_of parse digest config o) m),
          )
      | inr miss ↦
          let (own, there) = k x o' (ground (arith, e, miss, lookup-put (host_of o) x o hosts)) in
          (own, put_physical o m o' there)
    ]
      where
        put_physical :
            (o : Text) (m : List (Text × Text)) (i : Text)
            → lookup i m ≡ some (physical_of parse digest config i)
            → lookup i (put o (physical_of parse digest config o) m)
              ≡ some (physical_of parse digest config i)
        put_physical o m i e = ground (
          arith,
          e,
          lookup-put o i (physical_of parse digest config o) m,
          same_iff o i,
          ap (physical_of parse digest config) {x = o} {y = i},
        )

    pub add_new-Registered :
        (o : Text) (s t : Registry) (p : Text)
        → 1 ≤ config.limit
        → IsMaps s
        → length s.by_origin ≤ config.limit
        → lookup o s.by_origin ≡ none
        → add_new parse digest config o s ≡ some (t, p)
        → Registered o t p
    unfolding add_new
    add_new-Registered o s t p some_room ok few new h =
        let (r, made, h₁) = bind-some (make_room parse digest config s) _ h in
        let (u, e, h₂) = bind-some (parse (physical_of parse digest config o)) _ h₁ in
        let (v, f, own, _) = law o in
        let same_url : u ≡ v = ground (arith, e, f) in
        let host = ap (λ (x : Url). x.host) same_url ∙ own in
        let (maps, room, absent) = make_room-IsMaps s r some_room ok few made in
        let phys = physical_of parse digest config o in
        let is_t : record {
          by_origin = put o phys r.by_origin;
          by_host = put (host_of o) o r.by_host;
        }
            ≡ t =
          ground (arith, h₂, host) in
        let is_p : phys ≡ p = ground (arith, h₂) in
        subst (λ x. Registered o t x) is_p
          (subst (λ x. Registered o x phys) is_t
            (record {
              maps = record {
                distinct = KeysDistinct-put o phys r.by_origin maps.distinct;
                physicals = AllEntries-put IsPhysical o phys r.by_origin refl maps.physicals;
                hosts = λ x i k. put_hosts o r.by_origin r.by_host x i maps.hosts k;
              };
              few = omega (arith, room, length-put o phys r.by_origin);
              physical = refl;
              there = lookup-put_same o phys r.by_origin;
            }))
