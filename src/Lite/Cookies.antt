-- ===== src/Lite/Cookies.antt =====
-- apps/everyday/browser-lite/proxy/cookie-policy.cjs, redirect-policy.cjs and `useCookieJar` of origin-policy.cjs beside them: which
-- cookies a request may carry and a response may set, and what a navigation says of where it comes from.
-- The cookie jar, its parser, the URL parser and the list of public suffixes are arguments.
mod Tests
pub mod Redirects
pub mod Embedded
use vibetop.Base.{
  Bool, true, false, ◌&&◌, ◌||◌, not, Option, none, some, List, [], ◌∷◌, if◌then◌else◌, keep, Text,
  same, same_option, is_nil, codes, ◌>>=◌,
}
use vibetop.Lite.Url.{Url}

pub data Role : Type 0 where
  auth relay : Role

pub data Credentials : Type 0 where
  include same_origin omit : Credentials

-- The `SameSite` of a cookie, or of a request; a cookie may have no such attribute.
pub data SameSite : Type 0 where
  strict lax unrestricted : SameSite

pub record Cookie : Type 0 where
  pub name : Text
  pub value : Text
  pub same_site : Option SameSite
  pub secure : Bool

pub record Platform : Type 0 where
  pub parse : Text → Option Url
  pub public_suffix : Text → Option Text

-- `null` as the origin of a source or target is left to the parser.
pub record Request : Type 0 where
  pub role : Role
  pub credentials : Credentials
  pub source_origin : Text
  pub target_origin : Text
  pub navigation : Bool
  pub reads_only : Bool
  pub given_context : Option SameSite

abbrev pub is_unrestricted : SameSite → Bool
is_unrestricted strict = false
is_unrestricted lax = false
is_unrestricted unrestricted = true

abbrev pub says_unrestricted : Option SameSite → Bool
says_unrestricted none = false
says_unrestricted (some s) = is_unrestricted s

-- `useCookieJar`
pub use_cookie_jar : Request → Bool
unfolding same
use_cookie_jar q = elim q.role [
  | relay ↦ false
  | auth ↦ elim q.credentials [
    | omit ↦ false
    | same_origin ↦ same q.source_origin q.target_origin
    | include ↦ true
  ]
]

module _ (js : Platform) where
  -- The registered domain of a host, or the host.
  abbrev pub domain_of : Text → Text
  domain_of host = elim (js.public_suffix host) [
    | none ↦ host
    | some d ↦ if is_nil d then host else d
  ]

  pub same_site : Text → Text → Bool
  unfolding same
  same_site a b = elim (js.parse a) [
    | none ↦ false
    | some u ↦ elim (js.parse b) [
      | none ↦ false
      | some v ↦ same u.protocol v.protocol && same (domain_of u.hostname) (domain_of v.hostname)
    ]
  ]

  pub context_of : Request → SameSite
  unfolding same_site
  context_of q = elim q.given_context [
    | some c ↦ c
    | none ↦
        if same_site q.source_origin q.target_origin
        then strict
        else if q.navigation && q.reads_only
        then lax
        else unrestricted
  ]

  pub is_shown : Request → Cookie → Bool
  unfolding context_of
  is_shown q c = not (is_unrestricted (context_of q)) || says_unrestricted c.same_site

  -- The cookies that a request carries, `getHeader`, and those that a script sees, `getClientString`, of those
  -- that the jar gives for the context of the request.
  pub visible : (SameSite → List Cookie) → Request → List Cookie
  unfolding use_cookie_jar context_of is_shown
  visible jar q = if use_cookie_jar q then keep (is_shown q) (jar (context_of q)) else []

  pub may_set : Request → Cookie → Bool
  unfolding context_of
  may_set q c =
      (not (says_unrestricted c.same_site) || c.secure)
      && (not (is_unrestricted (context_of q)) || q.navigation || says_unrestricted c.same_site)

  pub may_set_value : (Text → Option Cookie) → Request → Text → Bool
  unfolding may_set
  may_set_value read q v = elim (read v) [ none ↦ false | some c ↦ may_set q c ]

  -- The values that a response sets, of those that parse, `setByServer`.
  pub accepted : (Text → Option Cookie) → Request → List Text → List Text
  unfolding use_cookie_jar may_set_value
  accepted read q values = if use_cookie_jar q then keep (may_set_value read q) values else []

-- What a chain of redirects has been through.
pub data Taint : Type 0 where
  clean through_site through_cross : Taint

pub record Navigation : Type 0 where
  pub source_origin : Option Text
  pub cross_site_redirect : Bool
  pub origin_taint : Taint

pub data FetchSite : Type 0 where
  user own_origin own_site cross_site : FetchSite

abbrev pub is_cross : Taint → Bool
is_cross clean = false
is_cross through_site = false
is_cross through_cross = true

abbrev pub is_own_site : Taint → Bool
is_own_site clean = false
is_own_site through_site = true
is_own_site through_cross = false

module _ (js : Platform) where
  abbrev pub origin_of : Text → Option Text
  origin_of t = do u ← js.parse t; some u.origin

  -- `redirectTaint`; `none` is the exception of a bad address.
  pub redirect_taint : Taint → (initiator previous next : Text) → Option Taint
  unfolding same_site same
  redirect_taint prior initiator previous next = if is_cross prior then some prior else (do
    from ← origin_of previous
    to ← origin_of next
    some (
        if not (same_site js from to) && not (same_site js initiator from)
        then through_cross
        else if not (same from to) && not (same initiator from)
        then through_site
        else prior))

  abbrev pub user_typed : Option Navigation → Bool
  user_typed none = false
  user_typed (some n) = elim n.source_origin [ none ↦ true | some _ ↦ false ]

  abbrev pub crossed : Option Navigation → Bool
  crossed none = false
  crossed (some n) = n.cross_site_redirect || is_cross n.origin_taint

  abbrev pub passed_site : Option Navigation → Bool
  passed_site none = false
  passed_site (some n) = is_own_site n.origin_taint

  -- `navigationFetchSite`
  pub navigation_fetch_site : Option Navigation → (source target : Text) → FetchSite
  unfolding same_site same
  navigation_fetch_site nav source target =
      if user_typed nav
      then user
      else if crossed nav
      then cross_site
      else if not (same_site js source target)
      then cross_site
      else if same source target && not (passed_site nav)
      then own_origin
      else own_site
