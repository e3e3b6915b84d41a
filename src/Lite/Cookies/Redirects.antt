-- ===== src/Lite/Cookies/Redirects.antt =====
-- What a whole chain of redirects amounts to.
use vibetop.Base.{
  ◌≡◌, refl, ◌∙◌, ap, Bool, false, ◌&&◌, ◌||◌, not, Option, some, List, [], ◌∷◌, if◌then◌else◌,
  Text, same, same_iff, sym, true, false, arith, ◌>>=◌, bind-some,
}
use vibetop.Lite.Cookies.{
  Navigation, navigation_fetch_site, own_origin, Platform, Taint, clean, through_site,
  through_cross, is_cross, origin_of, same_site, redirect_taint,
}

module _ (js : Platform) (initiator : Text) where
  -- The taint after redirects from an address through others, one after the other.
  unfoldable pub taint_of : Taint → Text → List Text → Option Taint
  unfolding redirect_taint
  taint_of prior url [] = some prior
  taint_of prior url (next ∷ rest) = do
    t ← redirect_taint js prior initiator url next
    taint_of t next rest

  -- A redirect from a site that is not the initiator's to a third one, and one between origins, from one
  -- that is not the initiator's.
  abbrev pub crosses_site : Text → Text → Bool
  crosses_site from to = not (same_site js from to) && not (same_site js initiator from)

  abbrev pub leaves_origin : Text → Text → Bool
  leaves_origin from to = not (same from to) && not (same initiator from)

  abbrev pub any_hop : (Text → Text → Bool) → List Text → Bool
  any_hop p [] = false
  any_hop p (_ ∷ []) = false
  any_hop p (a ∷ b ∷ rest) = p a b || any_hop p (b ∷ rest)

  abbrev pub origins : List Text → Option (List Text)
  origins [] = some []
  origins (url ∷ urls) = do o ← origin_of js url; os ← origins urls; some (o ∷ os)

  abbrev pub worst : Taint → Bool → Bool → Taint
  worst prior cross own =
      if is_cross prior || cross then through_cross else if own then through_site else prior

  hop :
      (prior : Taint) (url next from to : Text)
      → origin_of js url ≡ some from
      → origin_of js next ≡ some to
      → redirect_taint js prior initiator url next
        ≡ some (worst prior (crosses_site from to) (leaves_origin from to))
  unfolding redirect_taint
  hop through_cross url next from to f g = refl
  hop clean url next from to f g = rw (f, g) refl
  hop through_site url next from to f g = rw (f, g) (ground arith)

  worst-worst :
      (prior : Taint) (a b c d : Bool) → worst (worst prior a b) c d ≡ worst prior (a || c) (b || d)
  worst-worst prior a b c d = ground arith

  taint_of-from :
      (prior : Taint) (url from : Text) (urls os : List Text)
      → origin_of js url ≡ some from
      → origins urls ≡ some os
      → taint_of prior url urls
        ≡ some (worst prior (any_hop crosses_site (from ∷ os)) (any_hop leaves_origin (from ∷ os)))
  unfolding taint_of
  taint_of-from prior url from [] os f h =
      let e : [] ≡ os = ground (arith, h) in rw (← e) (ap some (worst_none prior))
    where
      worst_none : (p : Taint) → p ≡ worst p false false
      worst_none clean = refl
      worst_none through_site = refl
      worst_none through_cross = refl
  taint_of-from prior url from (next ∷ rest) os f h =
      let (to, g, h₁) = bind-some (origin_of js next) _ h in
      let (last, n, h₂) = bind-some (origins rest) _ h₁ in
      let e : to ∷ last ≡ os = ground (arith, h₂) in
      let after = worst prior (crosses_site from to) (leaves_origin from to) in
      rw (← e, hop prior url next from to f g)
        (taint_of-from after next to rest last g n
          ∙ ap some (
              worst-worst prior (crosses_site from to) (leaves_origin from to)
                (any_hop crosses_site (to ∷ last)) (any_hop leaves_origin (to ∷ last))))

  -- A chain of redirects, all of whose addresses are good, is tainted as cross-site just where it was so or one of
  -- them goes from a site that is not the initiator's to another site; else it has passed through the site just where
  -- one goes from an origin that is not the initiator's to another origin; else it is as it was.
  pub taint_of-worst :
      (prior : Taint) (url : Text) (urls os : List Text)
      → origins (url ∷ urls) ≡ some os
      → taint_of prior url urls
        ≡ some (worst prior (any_hop crosses_site os) (any_hop leaves_origin os))
  taint_of-worst prior url urls os h =
      let (from, f, h₁) = bind-some (origin_of js url) _ h in
      let (last, n, h₂) = bind-some (origins urls) _ h₁ in
      let e : from ∷ last ≡ os = ground (arith, h₂) in
      rw (← e) (taint_of-from prior url from urls last f n)

  -- A navigation that is said to come from its own origin, after redirects that began clean and whose addresses are
  -- good, goes to the origin it comes from, and no redirect went from another origin or site to a third.
  pub own_origin-hops :
      (url : Text) (urls os : List Text) (t : Taint) (nav : Navigation) (source target : Text)
      → origins (url ∷ urls) ≡ some os
      → taint_of clean url urls ≡ some t
      → nav.origin_taint ≡ t
      → navigation_fetch_site js (some nav) source target ≡ own_origin
      → (source ≡ target) × (any_hop crosses_site os ≡ false) × (any_hop leaves_origin os ≡ false)
  unfolding navigation_fetch_site
  own_origin-hops url urls os t nav source target good gathered same_taint said =
      let worst_hop : t ≡ worst clean (any_hop crosses_site os) (any_hop leaves_origin os) =
        ground (arith, gathered, taint_of-worst clean url urls os good) in
      let (no_cross, no_leave) =
        untainted (any_hop crosses_site os) (any_hop leaves_origin os)
          (sym worst_hop ∙ sym same_taint ∙ is_clean) in
      (of_source, no_cross, no_leave)
    where
      of_source : source ≡ target
      of_source = (same_iff source target).0 (ground (arith, said))

      is_clean : nav.origin_taint ≡ clean
      is_clean = taint_cases nav.origin_taint refl
        where
          taint_cases : (x : Taint) → nav.origin_taint ≡ x → nav.origin_taint ≡ clean
          taint_cases clean e = e
          taint_cases through_site e = absurd (ground (arith, said, e))
          taint_cases through_cross e = absurd (ground (arith, said, e))

      untainted : (a b : Bool) → worst clean a b ≡ clean → (a ≡ false) × (b ≡ false)
      untainted false false e = (refl, refl)
      untainted false true e = absurd (cc)
      untainted true b e = absurd (cc)
