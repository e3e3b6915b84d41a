-- ===== src/Lite/Realms/Served.antt =====
-- What the registry answers for a physical address, after any calls.
use vibetop.Base.{
  ◌≡◌, refl, sym, subst, ◌∙◌, ap, Option, none, some, List, [], ◌∷◌, Text, same_iff, lookup,
  bind-some, guard-some, arith, Option-cases, inl, inr,
}
use vibetop.Lite.Url.{Url}
use vibetop.Lite.Realms.{
  Context, Platform, Config, Record, Records, origin_of, read_context, context_token, host_of,
  register, recover, original,
}
use vibetop.Lite.Realms.Registry.{HostLaw, IsRegistry, register-Given}

pub data Operation : Type 0 where
  registers : (url : Text) → Context → Operation
  recovers : (host url token : Text) → Operation

module _ (js : Platform) (config : Config) where
  abbrev records_after : Option (Records × Record) → Records → Records
  records_after none records = records
  records_after (some (new, _)) records = new

  unfoldable pub step : Operation → Records → Records
  unfolding register recover
  step (registers url c) records = records_after (register js config url c records) records
  step (recovers host url token) records =
      records_after (recover js config host url token records) records

  unfoldable pub run : List Operation → Records → Records
  unfolding step
  run [] records = records
  run (op ∷ ops) records = run ops (step op records)

  -- The host of an origin in a context is of no other origin or context in the registry.
  abbrev pub OnlyOf : Text → Context → Records → Type 0
  OnlyOf origin c records =
      (old : Record)
      → lookup (host_of js config origin c) records ≡ some old
      → (old.origin ≡ origin) × (old.context ≡ c)

  recover-register :
      (host url token : Text) (records records' : Records) (r : Record)
      → recover js config host url token records ≡ some (records', r)
      → (c : Context) × (origin : Text) × (read_context js config token ≡ some c)
        × (origin_of js url ≡ some origin)
        × (host_of js config origin c ≡ host)
        × (register js config url c records ≡ some (records', r))
  unfolding recover
  recover-register host url token records records' r h =
      let (c, k, h₁) = bind-some _ _ h in
      let (origin, o, h₂) = bind-some _ _ h₁ in
      let (own, h₃) = guard-some _ _ h₂ in (c, origin, k, o, (same_iff _ _).0 own, h₃)

  lookup-original :
      (records : Records) (r : Record) (u : Url)
      → lookup (host_of js config r.origin r.context) records ≡ some r
      → js.parse r.physical ≡ some u
      → u.host ≡ host_of js config r.origin r.context
      → r.physical ≡ u.origin
      → original js config r.physical records ≡ some r
  unfolding original
  lookup-original records r u found p own e = rw (p, own, found, (same_iff _ _).1 e) refl

  original-kept :
      (records records' : Records)
      → ((host : Text) (old : Record)
          → lookup host records ≡ some old
          → lookup host records' ≡ some old)
      → (physical : Text) (old : Record) → original js config physical records ≡ some old
      → original js config physical records' ≡ some old
  unfolding original
  original-kept records records' kept physical old h =
      let (u, p, h₁) = bind-some (js.parse physical) _ h in
      let (r, found, h₂) = bind-some (lookup u.host records) _ h₁ in rw (p, kept u.host r found) h₂

  module _ (law : HostLaw js config) where
    step-IsRegistry :
        (op : Operation) (records : Records)
        → IsRegistry js config records
        → IsRegistry js config (step op records)
    unfolding step
    step-IsRegistry (registers url c) records ok =
        elim (Option-cases (register js config url c records)) [
          | inl failed ↦
              subst (IsRegistry js config) (ap (λ x. records_after x records) (sym failed)) ok
          | inr ((new, r), done) ↦
              let (_, given, _, _) = register-Given js config law url c records new r ok done in
              subst (IsRegistry js config) (ap (λ x. records_after x records) (sym done))
                given.registry
        ]
    step-IsRegistry (recovers host url token) records ok =
        elim (Option-cases (recover js config host url token records)) [
          | inl failed ↦
              subst (IsRegistry js config) (ap (λ x. records_after x records) (sym failed)) ok
          | inr ((new, r), done) ↦
              let (c, _, _, _, _, registered) =
                recover-register host url token records new r done in
              let (_, given, _, _) =
                register-Given js config law url c records new r ok registered in
              subst (IsRegistry js config) (ap (λ x. records_after x records) (sym done))
                given.registry
        ]

    run-IsRegistry :
        (ops : List Operation) (records : Records)
        → IsRegistry js config records
        → IsRegistry js config (run ops records)
    unfolding run
    run-IsRegistry [] records ok = ok
    run-IsRegistry (op ∷ ops) records ok =
        run-IsRegistry ops (step op records) (step-IsRegistry op records ok)

    -- A registration that succeeds after any calls gives a record whose physical address is answered with it
    -- from then on; it takes no address from another record; and where the host is of no other origin or
    -- context so far, the record is of the origin of the URL and of the context that was asked for.
    pub register-original :
        (ops : List Operation) (url : Text) (c : Context) (new : Records) (r : Record)
        (origin : Text) (context : Context)
        → register js config url c (run ops []) ≡ some (new, r)
        → origin_of js url ≡ some origin
        → read_context js config (context_token js config c) ≡ some context
        → OnlyOf origin context (run ops [])
        → (original js config r.physical new ≡ some r)
          × ((physical : Text) (old : Record)
              → original js config physical (run ops []) ≡ some old
              → original js config physical new ≡ some old)
          × (r.origin ≡ origin)
          × (r.context ≡ context)
    register-original ops url c new r origin context h asked read only =
        let ok = run-IsRegistry ops [] (record { entries = tt; few = omega arith }) in
        let (made, given, o, k) = register-Given js config law url c (run ops []) new r ok h in
        let (u, p, own, own_origin) = law.parsed r.origin r.context in
        let same_origin : made.origin ≡ origin = ground (arith, o, asked) in
        let same_context : made.context ≡ context = ground (arith, k, read) in
        let is_asked : (r.origin ≡ origin) × (r.context ≡ context) = elim given.from [
          | inl e ↦ (
            ap (λ (x : Record). x.origin) (sym e) ∙ same_origin,
            ap (λ (x : Record). x.context) (sym e) ∙ same_context,
          )
          | inr there ↦ only r (
              subst (λ x. lookup (host_of js config x context) (run ops []) ≡ some r) same_origin
                (subst (λ x. lookup (host_of js config made.origin x) (run ops []) ≡ some r)
                  same_context there))
        ] in
        (
          lookup-original new r u given.found (ap js.parse given.is_record.physical ∙ p) own
              (given.is_record.physical ∙ sym own_origin),
          original-kept (run ops []) new given.kept,
          is_asked.0,
          is_asked.1,
        )
