-- ===== src/Lite/Cookies/Embedded.antt =====
-- The cookies of a document that is embedded through another site: contexts of realm-policy.cjs, cookies of
-- cookie-policy.cjs, put together as gateway.cjs does.
use vibetop.Base.{
  ◌≡◌, refl, ◌∙◌, ap, Bool, true, false, not, Option, some, List, [], ◌∷◌, keep, Text, same_option,
  arith, any, Option-cases, inl, inr, if_elim,
}
use vibetop.Lite.Realms.{Context, Record, main_context, site, cookie_context}
use vibetop.Lite.Realms
use vibetop.Lite.Realms.Chain.{chain, OriginLaw, tainted-any}
use vibetop.Lite.Cookies.{
  Platform, Request, Cookie, SameSite, strict, unrestricted, says_unrestricted, is_unrestricted,
  context_of, use_cookie_jar, visible, accepted, may_set, is_shown, may_set_value,
}

-- `'strict'` and `'none'`
abbrev pub context_named : Bool → SameSite
context_named true = strict
context_named false = unrestricted

abbrev pub All {ℓ κ} : {A : Type ℓ} → (A → Type κ) → List A → Type κ
All P [] = Unit
All P (x ∷ xs) = P x × All P xs

All-keep {ℓ κ} :
    {A : Type ℓ} (P : A → Type κ) (p : A → Bool) (xs : List A)
    → ((x : A) → p x ≡ true → P x)
    → All P (keep p xs)
All-keep P p [] f = tt
All-keep P p (x ∷ xs) f =
    if_elim (All P) (p x) (λ e. (f x e, All-keep P p xs f)) (λ _. All-keep P p xs f)

module _ (js : Platform) where
  abbrev pub IsOpen : Cookie → Type 0
  IsOpen c = says_unrestricted c.same_site ≡ true

  abbrev pub SetsOpen : (Text → Option Cookie) → Text → Type 0
  SetsOpen read v = (c : Cookie) × (read v ≡ some c) × IsOpen c × (c.secure ≡ true)

  of_given : (q : Request) → q.given_context ≡ some unrestricted → context_of js q ≡ unrestricted
  unfolding context_of
  of_given q e = rw e refl

  visible-All :
      (jar : SameSite → List Cookie) (q : Request)
      → q.given_context ≡ some unrestricted
      → All IsOpen (visible js jar q)
  unfolding visible is_shown
  visible-All jar q e =
      if_elim (All IsOpen) (use_cookie_jar q)
        (λ _.
          All-keep IsOpen (is_shown js q) (jar (context_of js q))
            (λ c h. ground (arith, h, ap is_unrestricted (of_given q e))))
        (λ _. tt)

  accepted-All :
      (read : Text → Option Cookie) (q : Request) (values : List Text)
      → q.given_context ≡ some unrestricted
      → q.navigation ≡ false
      → All (SetsOpen read) (accepted js read q values)
  unfolding accepted may_set_value may_set
  accepted-All read q values e n =
      if_elim (All (SetsOpen read)) (use_cookie_jar q)
        (λ _. All-keep (SetsOpen read) (may_set_value js read q) values passes) (λ _. tt)
    where
      passes : (v : Text) → may_set_value js read q v ≡ true → SetsOpen read v
      passes v h = elim (Option-cases (read v)) [
        | inl bad ↦ absurd (ground (arith, h, bad))
        | inr (c, parsed) ↦
            let ok : may_set js q c ≡ true = ground (arith, h, parsed) in
            (
              c,
              parsed,
              ground (arith, ok, n, ap is_unrestricted (of_given q e)),
              ground (arith, ok, n, ap is_unrestricted (of_given q e)),
            )
      ]

-- A document that is nested under a main one, where it or one on the way to it is of another site, gets the
-- context of requests from elsewhere, and then only cookies that are marked for every site are carried or
-- shown to it, and its responses set, unless they are navigations, only cookies that are so marked and secure.
pub visible-chain :
    (realms : Realms.Platform) (js : Platform)
    → OriginLaw realms
    → (url : Text) (urls : List Text) (main last : Context) → main_context realms url ≡ some main
    → chain realms main urls ≡ some last
    → any (λ u. not (same_option (site realms u) (site realms url))) urls ≡ true
    → (r : Record) → r.context ≡ last
    → (own : Bool) → cookie_context realms r ≡ some own
    → (q : Request) → q.given_context ≡ some (context_named own)
    → (jar : SameSite → List Cookie) (read : Text → Option Cookie) (values : List Text)
    → (own ≡ false)
      × All (IsOpen js) (visible js jar q)
      × (q.navigation ≡ false → All (SetsOpen js read) (accepted js read q values))
unfolding cookie_context
visible-chain realms js law url urls main last h k crossed r e own c q given jar read values =
    let elsewhere : own ≡ false = tainted_own (
      ap (λ (x : Context). x.tainted) e
      ∙ tainted-any realms law url urls main last h k
      ∙ crossed) in
    let open_context = given ∙ ap (λ b. some (context_named b)) elsewhere in
    (
      elsewhere,
      visible-All js jar q open_context,
      λ n. accepted-All js read q values open_context n,
    )
  where
    tainted_own : r.context.tainted ≡ true → own ≡ false
    tainted_own t = ground (arith, t, c)
