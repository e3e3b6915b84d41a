-- ===== src/Lite/Realms/Tokens.antt =====
-- What a token carries, and which tokens are read.
use vibetop.Base.{
  ◌>>=◌, leb, ◌≤◌, ◌≡◌, refl, sym, subst, ◌∙◌, ap, Bool, true, false, Option, none, some, List, [],
  ◌∷◌, ◌++◌, length, Text, same, same_iff, is_nil, split_at, split_at-pair, split_at-append,
  bind-some, guard-some, same_option_refl, eq_of_same_option, arith, le→leb, Bool-cases, inl, inr,
}
use vibetop.Lite.Realms.{
  Context, Platform, Config, dot, site, origin_of, context_key, signature_of, context_token, parts,
  checked, read_context,
}

abbrev pub fields_of : Context → Text × Text × Option Bool
fields_of c = (c.document_origin, c.top_site, some c.tainted)

-- What the program relies on of the platform: base64url is decoded to what was encoded, and has no dot; and
-- JSON is read as what was written, and never from an empty text.
pub record Laws (js : Platform) : Type 0 where
  pub decodes : (t : Text) → js.from_base64 (js.to_base64 t) ≡ t
  pub no_dot : (t : Text) → split_at dot (js.to_base64 t) ≡ js.to_base64 t ∷ []
  pub reads : (c : Context) → js.read (js.print c) ≡ some (fields_of c)
  pub reads_nothing : js.read [] ≡ none
  pub decodes_nothing : js.from_base64 [] ≡ []
  pub signs : (key message : Text) → is_nil (js.hmac key message) ≡ false

-- An origin and a site in the form that the registry uses.
pub record IsContext (js : Platform) (c : Context) : Type 0 where
  pub origin : origin_of js c.document_origin ≡ some c.document_origin
  pub top : site js c.top_site ≡ some c.top_site

abbrev pub context_of : Text × Text × Option Bool → Option Context
context_of (origin, top, none) = none
context_of (origin, top, some tainted) =
    some (record { document_origin = origin; top_site = top; tainted = tainted })

checked-IsContext :
    (js : Platform) (x : Text × Text × Option Bool) (c : Context)
    → checked js x ≡ some c
    → IsContext js c × (x ≡ fields_of c)
unfolding checked
checked-IsContext js (origin, top, none) c h = absurd (cc)
checked-IsContext js (origin, top, some tainted) c h =
    let (o, h₁) = guard-some _ _ h in
    let (s, h₂) = guard-some _ _ h₁ in
    let e : record { document_origin = origin; top_site = top; tainted = tainted } ≡ c =
      ground (arith, h₂) in
    (
      subst (IsContext js) e
          (record { origin = eq_of_same_option _ _ o; top = eq_of_same_option _ _ s }),
      ap fields_of e,
    )

checked-back :
    (js : Platform) (c : Context)
    → IsContext js c
    → checked js (c.document_origin, c.top_site, some c.tainted) ≡ some c
unfolding checked
checked-back js c ok =
    rw
      (
        ok.origin,
        ok.top,
        same_option_refl (some c.document_origin),
        same_option_refl (some c.top_site),
      )
      refl

encoded :
    {js : Platform} → Laws js → (t : Text) → is_nil t ≡ false → is_nil (js.to_base64 t) ≡ false
encoded {js} laws t h = elim (Bool-cases (is_nil (js.to_base64 t))) [
  | inr full ↦ full
  | inl empty ↦ absurd (clash (js.to_base64 t) empty (laws.decodes t))
]
  where
    clash : (u : Text) → is_nil u ≡ true → js.from_base64 u ≡ t → ⊥
    clash [] e d = let n : t ≡ [] = sym d ∙ laws.decodes_nothing in ground (arith, h, n)
    clash (_ ∷ _) e d = cc

printed : {js : Platform} → Laws js → (c : Context) → is_nil (context_key js c) ≡ false
printed {js} laws c = elim (Bool-cases (is_nil (js.print c))) [
  | inr full ↦ full
  | inl empty ↦ absurd (clash (js.print c) empty (laws.reads c))
]
  where
    clash : {x : Text × Text × Option Bool} (u : Text) → is_nil u ≡ true → js.read u ≡ some x → ⊥
    clash [] e d = let n = laws.reads_nothing in cc
    clash (_ ∷ _) e d = cc

module _ (js : Platform) (config : Config) where
  -- The parts of a token that is signed by the registry, and what its first part says.
  pub record Signed (token : Text) (c : Context) : Type 0 where
    pub said : Text
    pub signature : Text
    pub joined : token ≡ said ++ dot ∷ signature
    pub signed : js.from_base64 signature ≡ signature_of js config said
    pub fields : js.read (js.from_base64 said) ≡ some (fields_of c)
    pub context : IsContext js c

  parts-some : (ts : List Text) (d s : Text) → parts ts ≡ some (d, s) → ts ≡ d ∷ s ∷ []
  unfolding parts
  parts-some [] d s h = absurd (cc)
  parts-some (_ ∷ []) d s h = absurd (cc)
  parts-some (x ∷ y ∷ []) d s h = ground (arith, h)
  parts-some (_ ∷ _ ∷ _ ∷ _) d s h = absurd (cc)

  -- A token that is read was signed: it is two parts joined by a dot, the second decodes to the signature
  -- of the first under the secret and the profile of the registry, the first says just the context that is
  -- read, and that context is in the form that the registry uses.
  pub read_context-Signed :
      (token : Text) (c : Context) → read_context js config token ≡ some c → Signed token c
  unfolding read_context
  read_context-Signed token c h =
      let (_, h₁) = guard-some _ _ h in
      let (both, p, h₂) = bind-some _ _ h₁ in
      let (sig, h₃) = guard-some _ _ h₂ in
      let (fields, r, h₄) = bind-some _ _ h₃ in
      let (ok, e) = checked-IsContext js fields c h₄ in
      record {
        said = both.0;
        signature = both.1;
        joined =
            split_at-pair dot token both.0 both.1 (parts-some (split_at dot token) both.0 both.1 p);
        signed = (same_iff _ _).0 sig;
        fields = r ∙ ap some e;
        context = ok;
      }

  -- The token of a context is read as no other one.
  pub read_context_same :
      Laws js
      → (c c' : Context) → read_context js config (context_token js config c) ≡ some c'
      → c ≡ c'
  unfolding read_context context_token
  read_context_same laws c c' h =
      let said = js.to_base64 (context_key js c) in
      let signature = js.to_base64 (signature_of js config said) in
      let token = said ++ dot ∷ signature in
      let (_, h₁) = guard-some (leb (length token) 2048) _ h in
      let (both, p, h₂) = bind-some (parts (split_at dot token)) _ h₁ in
      let (_, h₃) =
        guard-some (same (js.from_base64 both.1) (signature_of js config both.0)) _ h₂ in
      let (fields, r, h₄) = bind-some (js.read (js.from_base64 both.0)) _ h₃ in
      let first : said ∷ split_at dot signature ≡ both.0 ∷ both.1 ∷ [] =
        sym (split_at-append dot said signature (laws.no_dot _))
        ∙ parts-some (split_at dot token) both.0 both.1 p in
      let is_said : said ≡ both.0 = ground (arith, first) in
      let (_, e) = checked-IsContext js fields c' h₄ in
      let alike : some (fields_of c) ≡ some (fields_of c') =
        sym (laws.reads c)
        ∙ ap js.read (sym (laws.decodes _) ∙ ap js.from_base64 is_said)
        ∙ r
        ∙ ap some e in
      let rebuilt : some c ≡ some c' = ap (λ o. o >>= context_of) alike in ground (arith, rebuilt)

  -- The token of a context in that form is read as that context, as long as it is not too long for the
  -- reader.
  pub read_context-context_token :
      Laws js
      → (c : Context) → IsContext js c
      → length (context_token js config c) ≤ 2048
      → read_context js config (context_token js config c) ≡ some c
  unfolding read_context context_token parts
  read_context-context_token laws c ok short =
      let said = js.to_base64 (context_key js c) in
      let signature = js.to_base64 (signature_of js config said) in
      let two : split_at dot (said ++ dot ∷ signature) ≡ said ∷ signature ∷ [] =
        split_at-append dot said signature (laws.no_dot _) ∙ ap (λ ts. said ∷ ts) (laws.no_dot _) in
      let signed : same (js.from_base64 signature) (signature_of js config said) ≡ true =
        (same_iff _ _).1 (laws.decodes _) in
      let fields = ap js.read (laws.decodes (context_key js c)) ∙ laws.reads c in
      let both : parts (said ∷ signature ∷ []) ≡ some (said, signature) =
        rw (encoded laws _ (printed laws c), encoded laws _ (laws.signs _ _)) refl in
      rw (le→leb _ _ short, two, both, signed, fields) (checked-back js c ok)
