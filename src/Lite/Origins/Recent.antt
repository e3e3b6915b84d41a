-- ===== src/Lite/Origins/Recent.antt =====
-- The registry forgets the origin that was used least recently: how long an origin stays.
use vibetop.Base.{
  ◌⊎◌, ℕ, ◌+◌, ◌≤◌, ◌<◌, ◌≡◌, sym, subst, ◌∙◌, ap, true, false, Option, none, some, List, [], ◌∷◌,
  leb, length, Text, same, same_iff, same_refl, lookup, put, remove, lookup-put, lookup-remove,
  length-put, length-remove, bind-some, arith, Option-cases, Bool-cases, inl, inr, AllEntries,
  AllEntries-put, AllEntries-remove, if◌then◌else◌,
}
use vibetop.Lite.Url.{Url}
use vibetop.Lite.Origins.{
  Config, Registry, physical_of, forget, make_room, add_new, register_origin,
}
use vibetop.Lite.Origins.Maps.{host_of, HostLaw, IsMaps, forget-IsMaps}

-- How many entries come after that of a key.
abbrev pub after : Text → List (Text × Text) → ℕ
after o [] = 0
after o ((k, _) ∷ m) = let rest = after o m in if same k o then length m else rest

after-put :
    (o k p : Text) (m : List (Text × Text)) → same k o ≡ false → after o (put k p m) ≤ after o m + 1
unfolding put
after-put o k p [] h = ground (arith, h)
after-put o k p ((j, w) ∷ m) h =
    ground
      (arith, h, after-put o k p m h, length-put k p m, same_iff j k, same_iff j o, same_iff k o)

after-remove :
    (o k : Text) (m : List (Text × Text)) → same k o ≡ false → after o (remove k m) ≤ after o m
unfolding remove
after-remove o k [] h = omega arith
after-remove o k ((j, w) ∷ m) h =
    ground
      (arith, h, after-remove o k m h, length-remove k m, same_iff j k, same_iff j o, same_iff k o)

pub after_self : (o p : Text) (m : List (Text × Text)) → lookup o m ≡ none → after o (put o p m) ≡ 0
unfolding put lookup
after_self o p [] h = ground (arith, same_refl o)
after_self o p ((j, w) ∷ m) h = ground (arith, h, after_self o p m, same_refl o)

module _ (parse : Text → Option Url) (digest : Text → Text → Text) (config : Config)
    (o : Text) where
  abbrev pub IsAlone : Text → Text → Type 0
  IsAlone k _ = host_of parse digest config k ≡ host_of parse digest config o → k ≡ o

  -- The origin is there, with at most so many after it, and its host answers for it and is of no other.
  pub record IsRecent (n : ℕ) (s : Registry) : Type 0 where
    pub held : lookup o s.by_origin ≡ some (physical_of parse digest config o)
    pub rank : after o s.by_origin ≤ n
    pub answered : lookup (host_of parse digest config o) s.by_host ≡ some o
    pub alone : AllEntries IsAlone s.by_origin

  pub apart :
      (k : Text)
      → IsAlone k k
      → same k o ≡ false
      → same (host_of parse digest config k) (host_of parse digest config o) ≡ false
  apart k only d =
      elim (Bool-cases (same (host_of parse digest config k) (host_of parse digest config o))) [
        | inl hit ↦ absurd (ground (arith, d, (same_iff k o).1 (only ((same_iff _ _).0 hit))))
        | inr miss ↦ miss
      ]

  -- The head of the list is another origin, where not all that may be there come after this one.
  behind :
      (k p : Text) (rest : List (Text × Text)) (n : ℕ)
      → after o ((k, p) ∷ rest) ≤ n
      → n + 1 < length ((k, p) ∷ rest)
      → (same k o ≡ false) × (after o rest ≤ n)
  behind k p rest n h more = ground (arith, h, more)

  forget-IsRecent :
      HostLaw parse digest config
      → (n : ℕ) (s t : Registry) → IsMaps parse digest config s
      → IsRecent n s
      → n + 1 < length s.by_origin
      → forget parse digest config s ≡ some t
      → IsRecent n t
  unfolding lookup
  forget-IsRecent law n s t ok recent more h =
      let (_, k, p, entries, hosts) = forget-IsMaps parse digest config law s t ok h in
      let (other, rank) =
        behind k p t.by_origin n (subst (λ m. after o m ≤ n) entries recent.rank)
          (subst (λ m. n + 1 < length m) entries more) in
      let alone : AllEntries IsAlone ((k, p) ∷ t.by_origin) =
        subst (AllEntries IsAlone) entries recent.alone in
      record {
        held = in_tail k p t.by_origin other (ap (lookup o) (sym entries) ∙ recent.held);
        rank = rank;
        answered =
            ap (lookup (host_of parse digest config o)) hosts
            ∙ ground (
              arith,
              lookup-remove (host_of parse digest config k) (host_of parse digest config o)
                  s.by_host,
              recent.answered,
              apart k alone.0 other,
            );
        alone = alone.1;
      }
    where
      in_tail :
          (k p : Text) (m : List (Text × Text)) {v : Text}
          → same k o ≡ false
          → lookup o ((k, p) ∷ m) ≡ some v
          → lookup o m ≡ some v
      in_tail k p m d e = ground (arith, d, e)

  -- Another origin, that is new or comes last again, puts at most one entry after this one.
  add_new-IsRecent :
      HostLaw parse digest config
      → (k : Text) (n : ℕ) (s t : Registry) (p : Text) → IsMaps parse digest config s
      → IsRecent n s
      → n + 1 < config.limit
      → IsAlone k k
      → same k o ≡ false
      → add_new parse digest config k s ≡ some (t, p)
      → IsRecent (n + 1) t
  unfolding add_new make_room
  add_new-IsRecent law k n s t p ok recent more only other h =
      let (r, made, h₁) = bind-some (make_room parse digest config s) _ h in
      let (u, e, h₂) = bind-some (parse (physical_of parse digest config k)) _ h₁ in
      let (v, f, own, _) = law k in
      let same_url : u ≡ v = ground (arith, e, f) in
      let host = ap (λ (x : Url). x.host) same_url ∙ own in
      let phys = physical_of parse digest config k in
      let is_t : record {
        by_origin = put k phys r.by_origin;
        by_host = put (host_of parse digest config k) k r.by_host;
      }
          ≡ t =
        ground (arith, h₂, host) in
      subst (IsRecent (n + 1)) is_t (puts r (made_room r made))
    where
      made_room : (r : Registry) → make_room parse digest config s ≡ some r → IsRecent n r
      made_room r made = elim (Bool-cases (leb config.limit (length s.by_origin))) [
        | inr room ↦ let e : s ≡ r = ground (arith, made, room) in subst (IsRecent n) e recent
        | inl full ↦
            forget-IsRecent law n s r ok recent (ground (arith, full, more))
              (ground (arith, made, full))
      ]

      puts :
          (r : Registry)
          → IsRecent n r
          → IsRecent (n + 1) (record {
            by_origin = put k (physical_of parse digest config k) r.by_origin;
            by_host = put (host_of parse digest config k) k r.by_host;
          })
      puts r now =
          let phys = physical_of parse digest config k in
          record {
            held = ground (arith, lookup-put k o phys r.by_origin, now.held, other);
            rank = omega (arith, after-put o k phys r.by_origin other, now.rank);
            answered = ground (
              arith,
              lookup-put (host_of parse digest config k) (host_of parse digest config o) k
                  r.by_host,
              now.answered,
              apart k only other,
            );
            alone = AllEntries-put IsAlone k phys r.by_origin only now.alone;
          }

  -- An origin that is used again comes last.
  touch-IsRecent :
      (k q : Text) (n : ℕ) (s : Registry)
      → IsMaps parse digest config s
      → IsRecent n s
      → IsAlone k k
      → lookup k s.by_origin ≡ some q
      → IsRecent (n + 1) (record s { by_origin = put k q (remove k s.by_origin) })
  touch-IsRecent k q n s ok recent only there = record {
    held = held (Bool-cases (same k o));
    rank = rank (Bool-cases (same k o));
    answered = recent.answered;
    alone =
        AllEntries-put IsAlone k q (remove k s.by_origin) only
          (AllEntries-remove IsAlone k s.by_origin recent.alone);
  }
    where
      held :
          (same k o ≡ true) ⊎ (same k o ≡ false)
          → lookup o (put k q (remove k s.by_origin)) ≡ some (physical_of parse digest config o)
      held (inl hit) =
          let e = (same_iff k o).0 hit in
          lookup-put k o q (remove k s.by_origin)
          ∙ ground (arith, hit, there, recent.held, ap (λ x. lookup x s.by_origin) e)
      held (inr miss) = ground (
        arith,
        lookup-put k o q (remove k s.by_origin),
        lookup-remove k o s.by_origin,
        miss,
        recent.held,
      )

      rank :
          (same k o ≡ true) ⊎ (same k o ≡ false) → after o (put k q (remove k s.by_origin)) ≤ n + 1
      rank (inl hit) =
          let e = (same_iff k o).0 hit in
          let gone : lookup o (remove k s.by_origin) ≡ none =
            ground (arith, lookup-remove k o s.by_origin, hit) in
          let last = after_self o q (remove k s.by_origin) gone in
          subst (λ x. after o (put x q (remove k s.by_origin)) ≤ n + 1) (sym e)
            (omega (arith, last))
      rank (inr miss) = omega (
        arith,
        after-put o k q (remove k s.by_origin) miss,
        after-remove o k s.by_origin miss,
        recent.rank,
      )

  pub register_origin-IsRecent :
      HostLaw parse digest config
      → (k : Text) (n : ℕ) (s t : Registry) (p : Text) → IsMaps parse digest config s
      → IsRecent n s
      → n + 1 < config.limit
      → IsAlone k k
      → register_origin parse digest config k s ≡ some (t, p)
      → IsRecent (n + 1) t
  unfolding register_origin
  register_origin-IsRecent law k n s t p ok recent more only h =
      elim (Option-cases (lookup k s.by_origin)) [
        | inl new ↦
            let other : same k o ≡ false = ground (
              arith,
              new,
              recent.held,
              same_iff k o,
              ap (λ x. lookup x s.by_origin) {x = k} {y = o},
            ) in
            add_new-IsRecent law k n s t p ok recent more only other (ground (arith, h, new))
        | inr (q, there) ↦
            let e : record s { by_origin = put k q (remove k s.by_origin) } ≡ t =
              ground (arith, h, there) in
            subst (IsRecent (n + 1)) e (touch-IsRecent k q n s ok recent only there)
      ]
