-- ===== src/Lite/Origins/Stays.antt =====
-- An origin that is registered stays until as many others are used as the registry may hold.
use vibetop.Base.{
  ◌≡◌, sym, subst, ◌∙◌, ap, false, Option, some, List, ◌∷◌, leb, length, Text, same, same_iff,
  lookup, put, remove, lookup-put, lookup-remove, lookup-put_same, bind-some, arith, Option-cases,
  Bool-cases, inl, inr, AllEntries, AllEntries-put, AllEntries-remove, KeysDistinct,
}
use vibetop.Lite.Url.{Url}
use vibetop.Lite.Origins.{
  Config, Registry, physical_of, forget, make_room, add_new, register_origin,
}
use vibetop.Lite.Origins.Maps.{host_of, HostLaw, IsMaps, forget-IsMaps}
use vibetop.Lite.Origins.Recent.{apart, IsAlone}

module _ (parse : Text → Option Url) (digest : Text → Text → Text) (config : Config)
    (law : HostLaw parse digest config) (o : Text) where
  -- Where the origin is there, its host answers for it; and its host is of no other.
  pub record IsAnswered (s : Registry) : Type 0 where
    pub answered :
        lookup o s.by_origin ≡ some (physical_of parse digest config o)
        → lookup (host_of parse digest config o) s.by_host ≡ some o
    pub alone : AllEntries (IsAlone parse digest config o) s.by_origin

  forget-IsAnswered :
      (s t : Registry)
      → IsMaps parse digest config s
      → IsAnswered s
      → forget parse digest config s ≡ some t
      → IsAnswered t
  unfolding lookup
  forget-IsAnswered s t ok now h =
      let (_, k, p, entries, hosts) = forget-IsMaps parse digest config law s t ok h in
      let alone : AllEntries (IsAlone parse digest config o) ((k, p) ∷ t.by_origin) =
        subst (AllEntries (IsAlone parse digest config o)) entries now.alone in
      let distinct : KeysDistinct ((k, p) ∷ t.by_origin) = subst KeysDistinct entries ok.distinct in
      record {
        answered = λ held. elim (Bool-cases (same k o)) [
          | inl hit ↦ absurd (
              ground
                (arith, held, distinct.0, ap (λ x. lookup x t.by_origin) ((same_iff k o).0 hit)))
          | inr other ↦
              let before : lookup o s.by_origin ≡ some (physical_of parse digest config o) =
                ap (lookup o) entries ∙ in_tail k p t.by_origin other held in
              ap (lookup (host_of parse digest config o)) hosts
              ∙ ground (
                arith,
                lookup-remove (host_of parse digest config k) (host_of parse digest config o)
                    s.by_host,
                now.answered before,
                apart parse digest config o k alone.0 other,
              )
        ];
        alone = alone.1;
      }
    where
      in_tail :
          (k p : Text) (m : List (Text × Text)) {v : Text}
          → same k o ≡ false
          → lookup o m ≡ some v
          → lookup o ((k, p) ∷ m) ≡ some v
      in_tail k p m d e = ground (arith, d, e)

  make_room-IsAnswered :
      (s t : Registry)
      → IsMaps parse digest config s
      → IsAnswered s
      → make_room parse digest config s ≡ some t
      → IsAnswered t
  unfolding make_room
  make_room-IsAnswered s t ok now h = elim (Bool-cases (leb config.limit (length s.by_origin))) [
    | inr room ↦ let e : s ≡ t = ground (arith, h, room) in subst IsAnswered e now
    | inl full ↦ forget-IsAnswered s t ok now (ground (arith, h, full))
  ]

  put-IsAnswered :
      (k : Text) (s : Registry)
      → IsAlone parse digest config o k k
      → IsAnswered s
      → IsAnswered (record {
        by_origin = put k (physical_of parse digest config k) s.by_origin;
        by_host = put (host_of parse digest config k) k s.by_host;
      })
  put-IsAnswered k s only now =
      let phys = physical_of parse digest config k in
      record {
        answered = λ held. elim (Bool-cases (same k o)) [
          | inl hit ↦
              subst
                (λ x.
                  lookup (host_of parse digest config x)
                    (put (host_of parse digest config k) k s.by_host)
                  ≡ some x)
                ((same_iff k o).0 hit) (lookup-put_same (host_of parse digest config k) k s.by_host)
          | inr other ↦ ground (
            arith,
            lookup-put (host_of parse digest config k) (host_of parse digest config o) k s.by_host,
            now.answered (ground (arith, held, lookup-put k o phys s.by_origin, other)),
            apart parse digest config o k only other,
          )
        ];
        alone = AllEntries-put (IsAlone parse digest config o) k phys s.by_origin only now.alone;
      }

  add_new-IsAnswered :
      (k : Text) (s t : Registry) (p : Text)
      → IsMaps parse digest config s
      → IsAnswered s
      → IsAlone parse digest config o k k
      → add_new parse digest config k s ≡ some (t, p)
      → IsAnswered t
  unfolding add_new
  add_new-IsAnswered k s t p ok now only h =
      let (r, made, h₁) = bind-some (make_room parse digest config s) _ h in
      let (u, e, h₂) = bind-some (parse (physical_of parse digest config k)) _ h₁ in
      let (v, f, own, _) = law k in
      let same_url : u ≡ v = ground (arith, e, f) in
      let host = ap (λ (x : Url). x.host) same_url ∙ own in
      let is_t : record {
        by_origin = put k (physical_of parse digest config k) r.by_origin;
        by_host = put (host_of parse digest config k) k r.by_host;
      }
          ≡ t =
        ground (arith, h₂, host) in
      subst IsAnswered is_t (put-IsAnswered k r only (make_room-IsAnswered s r ok now made))

  pub register_origin-IsAnswered :
      (k : Text) (s t : Registry) (p : Text)
      → IsMaps parse digest config s
      → IsAnswered s
      → IsAlone parse digest config o k k
      → register_origin parse digest config k s ≡ some (t, p)
      → IsAnswered t
  unfolding register_origin
  register_origin-IsAnswered k s t p ok now only h = elim (Option-cases (lookup k s.by_origin)) [
    | inl new ↦ add_new-IsAnswered k s t p ok now only (ground (arith, h, new))
    | inr (q, there) ↦
        let e : record s { by_origin = put k q (remove k s.by_origin) } ≡ t =
          ground (arith, h, there) in
        subst IsAnswered e (touched q there)
  ]
    where
      touched :
          (q : Text)
          → lookup k s.by_origin ≡ some q
          → IsAnswered (record s { by_origin = put k q (remove k s.by_origin) })
      touched q there = record {
        answered = λ held. now.answered (elim (Bool-cases (same k o)) [
          | inl hit ↦
              ap (λ x. lookup x s.by_origin) (sym ((same_iff k o).0 hit))
              ∙ there
              ∙ ground (arith, held, lookup-put k o q (remove k s.by_origin), hit)
          | inr other ↦ ground (
            arith,
            held,
            lookup-put k o q (remove k s.by_origin),
            lookup-remove k o s.by_origin,
            other,
          )
        ]);
        alone =
            AllEntries-put (IsAlone parse digest config o) k q (remove k s.by_origin) only
              (AllEntries-remove (IsAlone parse digest config o) k s.by_origin now.alone);
      }
