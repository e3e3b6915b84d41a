-- ===== src/Lite/Realms/Chain.antt =====
-- The contexts of nested documents, and the cookies that they may use.
use vibetop.Base.{
  ◌≡◌, refl, sym, subst, ◌∙◌, Bool, true, false, ◌||◌, not, Option, some, List, [], ◌∷◌, Text, same,
  same_option, same_option_refl, bind-some, arith, ◌>>=◌, any,
}
use vibetop.Lite.Realms.{Context, Platform, site, origin_of, main_context, child_context}

module _ (js : Platform) where
  -- The context of the last of documents, each nested in the one before.
  unfoldable pub chain : Context → List Text → Option Context
  unfolding child_context
  chain c [] = some c
  chain c (url ∷ urls) = do child ← child_context js c url; chain child urls

  -- Whether an address is of another site.
  abbrev pub crosses : Text → Text → Bool
  crosses top url = not (same_option (site js url) (some top))

  -- An origin is of the site of the address that it is read from.
  abbrev pub OriginLaw : Type 0
  OriginLaw = (url origin : Text) → origin_of js url ≡ some origin → site js origin ≡ site js url

  -- A document of another site than the top one is counted.
  abbrev IsCounted : Context → Type 0
  IsCounted c = (same_option (site js c.document_origin) (some c.top_site) || c.tainted) ≡ true

  child_context-tainted :
      OriginLaw
      → (c : Context) (url : Text) (child : Context) → IsCounted c
      → child_context js c url ≡ some child
      → IsCounted child
        × (child.tainted ≡ (c.tainted || crosses c.top_site url))
        × (child.top_site ≡ c.top_site)
  unfolding child_context same_option
  child_context-tainted law c url child ok h =
      let (origin, o, h₁) = bind-some (origin_of js url) _ h in
      let (own, s, h₂) = bind-some (site js c.document_origin) _ h₁ in
      let (new, t, h₃) = bind-some (site js origin) _ h₂ in
      let same_site = law url origin o in
      let made : Context = record {
        document_origin = origin;
        top_site = c.top_site;
        tainted = c.tainted || not (same own c.top_site) || not (same new c.top_site);
      } in
      let e : made ≡ child = ground (arith, h₃) in
      subst
        (λ (x : Context).
          IsCounted x
          × (x.tainted ≡ (c.tainted || crosses c.top_site url))
          × (x.top_site ≡ c.top_site))
        e (ground (arith, t), ground (arith, s, t, same_site, ok), refl)

  chain-tainted :
      OriginLaw
      → (c : Context) (urls : List Text) (last : Context) → IsCounted c
      → chain c urls ≡ some last
      → (last.tainted ≡ (c.tainted || any (crosses c.top_site) urls)) × (last.top_site ≡ c.top_site)
  unfolding chain
  chain-tainted law c [] last ok h = (ground (arith, h), ground (arith, h))
  chain-tainted law c (url ∷ urls) last ok h =
      let (child, made, rest) = bind-some (child_context js c url) _ h in
      let (counted, taint, top) = child_context-tainted law c url child ok made in
      let (later, same_top) = chain-tainted law child urls last counted rest in
      (ground (arith, later, taint, top), same_top ∙ top)

  -- A document that is nested under a main document is tainted just where it or a document on the way to it is of
  -- another site than the main one, whatever frames come between.
  pub tainted-any :
      OriginLaw
      → (url : Text) (urls : List Text) (main last : Context) → main_context js url ≡ some main
      → chain main urls ≡ some last
      → last.tainted ≡ any (λ u. not (same_option (site js u) (site js url))) urls
  unfolding main_context
  tainted-any law url urls main last h k =
      let (origin, o, h₁) = bind-some (origin_of js url) _ h in
      let (top, s, h₂) = bind-some (site js url) _ h₁ in
      let made : Context = record { document_origin = origin; top_site = top; tainted = false } in
      let e : made ≡ main = ground (arith, h₂) in
      let counted : IsCounted made =
        rw (law url origin o, s) (ground (arith, same_option_refl (some top))) in
      let (taint, same_top) =
        chain-tainted law made urls last counted
          (subst (λ x. chain x urls ≡ some last) (sym e) k) in
      rw s taint
