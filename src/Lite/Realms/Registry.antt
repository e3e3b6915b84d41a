-- ===== src/Lite/Realms/Registry.antt =====
-- The registry of the hosts: what its records are, and what a registration gives.
use vibetop.Base.{
  ◌≤◌, ◌⊎◌, ◌≡◌, refl, subst, ◌∙◌, ap, false, not, none, some, ◌++◌, leb, length, Text, same,
  same_iff, codes, lookup, put, lookup-put, lookup-put_same, length-put, bind-some, arith,
  Option-cases, Bool-cases, inl, inr, AllEntries, AllEntries-put, AllEntries-lookup,
}
use vibetop.Lite.Url.{Url}
use vibetop.Lite.Realms.{
  Context, Platform, Config, Record, Records, origin_of, read_context, context_token, host_of,
  describe, add_record, register,
}
use vibetop.Lite.Realms.Tokens.{IsContext, read_context-Signed}

-- The URL of a physical host is parsed as that host, and is its own origin.
pub record HostLaw (js : Platform) (config : Config) : Type 0 where
  pub parsed :
      (origin : Text) (c : Context)
      → (u : Url) × (js.parse (codes "https://" ++ host_of js config origin c) ≡ some u)
        × (u.host ≡ host_of js config origin c)
        × (u.origin ≡ codes "https://" ++ host_of js config origin c)

module _ (js : Platform) (config : Config) where
  -- A record is of an origin in a context in the registry's form, under the host of both.
  pub record IsRecord (host : Text) (r : Record) : Type 0 where
    pub context : IsContext js r.context
    pub own_host : host ≡ host_of js config r.origin r.context
    pub physical : r.physical ≡ codes "https://" ++ host
    pub resource : r.resource_only ≡ not (same r.origin r.context.document_origin)

  pub record IsRegistry (records : Records) : Type 0 where
    pub entries : AllEntries IsRecord records
    pub few : length records ≤ config.max_records

  describe-IsRecord :
      (url : Text) (c : Context) (r : Record)
      → describe js config url c ≡ some r
      → IsRecord (host_of js config r.origin r.context) r
        × (origin_of js url ≡ some r.origin)
        × (read_context js config (context_token js config c) ≡ some r.context)
  unfolding describe
  describe-IsRecord url c r h =
      let (origin, o, h₁) = bind-some _ _ h in
      let (context, k, h₂) = bind-some _ _ h₁ in
      let made : Record = record {
        origin = origin;
        context = context;
        physical = codes "https://" ++ host_of js config origin context;
        resource_only = not (same origin context.document_origin);
      } in
      let e : made ≡ r = ground (arith, h₂) in
      subst
        (λ (x : Record).
          IsRecord (host_of js config x.origin x.context) x
          × (origin_of js url ≡ some x.origin)
          × (read_context js config (context_token js config c) ≡ some x.context))
        e
        (
          record {
            context = (read_context-Signed js config (context_token js config c) context k).context;
            own_host = refl;
            physical = refl;
            resource = refl;
          },
          o,
          k,
        )

  -- What a registration gives: the record stands under its host, the registry is one, and no host is lost.
  pub record Given (records records' : Records) (made r : Record) : Type 0 where
    pub registry : IsRegistry records'
    pub found : lookup (host_of js config r.origin r.context) records' ≡ some r
    pub of_host : host_of js config made.origin made.context ≡ host_of js config r.origin r.context
    pub is_record : IsRecord (host_of js config r.origin r.context) r
    pub from : (made ≡ r) ⊎ (lookup (host_of js config made.origin made.context) records ≡ some r)
    pub kept :
        (host : Text) (old : Record)
        → lookup host records ≡ some old
        → lookup host records' ≡ some old

  add_record-Given :
      (records records' : Records) (made r : Record)
      → IsRegistry records
      → IsRecord (host_of js config made.origin made.context) made
      → add_record js config (host_of js config made.origin made.context) made records
        ≡ some (records', r)
      → Given records records' made r
  unfolding add_record
  add_record-Given records records' made r ok fits h =
      let host = host_of js config made.origin made.context in
      elim (Option-cases (lookup host records)) [
        | inr (old, there) ↦
            let is_old : IsRecord host old =
              AllEntries-lookup IsRecord host records ok.entries there in
            let same_records : records ≡ records' = ground (arith, h, there) in
            let same_record : old ≡ r = ground (arith, h, there) in
            subst (λ x. Given records x made r) same_records
              (subst (λ x. Given records records made x) same_record (keeps old is_old there))
        | inl absent ↦ elim (Bool-cases (leb config.max_records (length records))) [
          | inl full ↦ ground (arith, h, absent, full)
          | inr room ↦
              let new_records : put host made records ≡ records' =
                ground (arith, h, absent, room) in
              let same_record : made ≡ r = ground (arith, h, absent, room) in
              subst (λ x. Given records x made r) new_records
                (subst (λ x. Given records (put host made records) made x) same_record
                  (adds absent room))
        ]
      ]
    where
      keeps :
          (old : Record)
          → IsRecord (host_of js config made.origin made.context) old
          → lookup (host_of js config made.origin made.context) records ≡ some old
          → Given records records made old
      keeps old is_old there = record {
        registry = ok;
        found = subst (λ x. lookup x records ≡ some old) is_old.own_host there;
        of_host = is_old.own_host;
        is_record = subst (λ x. IsRecord x old) is_old.own_host is_old;
        from = inr there;
        kept = λ host o e. e;
      }

      adds :
          lookup (host_of js config made.origin made.context) records ≡ none
          → leb config.max_records (length records) ≡ false
          → Given records (put (host_of js config made.origin made.context) made records) made made
      adds absent room =
          let host = host_of js config made.origin made.context in
          record {
            registry = record {
              entries = AllEntries-put IsRecord host made records fits ok.entries;
              few = ground (arith, room, length-put host made records);
            };
            found = lookup-put_same host made records;
            of_host = refl;
            is_record = fits;
            from = inl refl;
            kept = λ k old e.
                ground (arith, e, lookup-put host k made records, absent, same_iff host k);
          }

  pub register-Given :
      HostLaw js config
      → (url : Text) (c : Context) (records records' : Records) (r : Record) → IsRegistry records
      → register js config url c records ≡ some (records', r)
      → (made : Record) × Given records records' made r
        × (origin_of js url ≡ some made.origin)
        × (read_context js config (context_token js config c) ≡ some made.context)
  unfolding register
  register-Given law url c records records' r ok h =
      let (made, d, h₁) = bind-some _ _ h in
      let (u, p, h₂) = bind-some (js.parse made.physical) _ h₁ in
      let (fits, o, k) = describe-IsRecord url c made d in
      let (u₀, p₀, own, _) = law.parsed made.origin made.context in
      let same_url : u ≡ u₀ = ground (arith, p, p₀, ap js.parse fits.physical) in
      let host = host_of js config made.origin made.context in
      let added : add_record js config host made records ≡ some (records', r) =
        subst (λ x. add_record js config x made records ≡ some (records', r))
          (ap (λ (x : Url). x.host) same_url ∙ own) h₂ in
      (made, add_record-Given records records' made r ok fits added, o, k)
