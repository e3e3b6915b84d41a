-- ===== src/Lite/Cookies/Tests.antt =====
-- Cookies and redirects over a parser that takes the text before a slash as the host.
use vibetop.Base.{
  ◌≡◌, refl, Bool, true, false, Option, none, some, [], ◌∷◌, Text, same, same_option, codes, drop,
  arith,
}
use vibetop.Lite.Url.{Url, upstream_url}
use vibetop.Lite.Realms.{Context, Record, main_context, site, cookie_context}
use vibetop.Lite.Realms
use vibetop.Lite.Realms.Chain.{chain, OriginLaw}
use vibetop.Lite.Cookies.{
  Navigation, navigation_fetch_site, redirect_taint, same_site, Platform, Request, Cookie, SameSite,
  lax, unrestricted, auth, include, visible, accepted, clean, through_cross,
}
use vibetop.Lite.Cookies.Redirects.{
  taint_of, taint_of-worst, own_origin-hops, any_hop, crosses_site, leaves_origin,
}
use vibetop.Lite.Cookies.Embedded.{All, IsOpen, SetsOpen, visible-chain}

abbrev parse : Text → Option Url
parse t = some (record {
  href = t;
  origin = t;
  protocol = codes "https:";
  username = [];
  password = [];
  hostname = drop 8 t;
  host = drop 8 t;
})

abbrev js : Platform
js = record { parse = parse; public_suffix = λ t. none }

abbrev realms : Realms.Platform
realms = record {
  parse = parse;
  is_ip = λ t. false;
  public_suffix = λ t. none;
  hmac = λ key message. 1 ∷ message;
  hex = λ t. t;
  to_base64 = λ t. t;
  from_base64 = λ t. t;
  print = λ c. [];
  read = λ t. none;
}

-- From the initiator to another site, and from there to a third one.
taint_of-worst_example :
    taint_of js
      (codes "https://a")
      clean
      (codes "https://a")
      (codes "https://b" ∷ codes "https://c" ∷ [])
    ≡ some through_cross
unfolding same same_site
taint_of-worst_example =
    taint_of-worst js (codes "https://a") clean (codes "https://a")
      (codes "https://b" ∷ codes "https://c" ∷ [])
      (codes "https://a" ∷ codes "https://b" ∷ codes "https://c" ∷ []) refl

abbrev request : Request
request = record {
  role = auth;
  credentials = include;
  source_origin = codes "https://a";
  target_origin = codes "https://a";
  navigation = false;
  reads_only = true;
  given_context = some unrestricted;
}

abbrev cookie : Option SameSite → Cookie
cookie s = record { name = codes "n"; value = []; same_site = s; secure = true }

abbrev context : Bool → Context
context t = record {
  document_origin = codes "https://a";
  top_site = codes "https://a";
  tainted = t;
}

abbrev frame : Record
frame = record {
  origin = codes "https://a";
  context = context true;
  physical = [];
  resource_only = false;
}

origin_law : OriginLaw realms
unfolding upstream_url same
origin_law url origin e = ground (arith, e)

visible-chain_example :
    (false ≡ false)
    × All (IsOpen js) (
        visible js (λ _. cookie none ∷ cookie (some unrestricted) ∷ cookie (some lax) ∷ []) request)
    × (false ≡ false
        → All
            (SetsOpen js (λ v. some (cookie none)))
            (accepted js (λ v. some (cookie none)) request (codes "n=1" ∷ [])))
unfolding main_context chain site upstream_url same same_option cookie_context
visible-chain_example =
    visible-chain realms js origin_law (codes "https://a")
      (codes "https://b" ∷ codes "https://a" ∷ []) (context false) (context true) refl refl refl
      frame refl false refl request refl
      (λ _. cookie none ∷ cookie (some unrestricted) ∷ cookie (some lax) ∷ [])
      (λ v. some (cookie none)) (codes "n=1" ∷ [])

abbrev navigation : Navigation
navigation = record {
  source_origin = some (codes "https://a");
  cross_site_redirect = false;
  origin_taint = clean;
}

-- A redirect of the origin to itself.
own_origin-hops_example :
    (codes "https://a" ≡ codes "https://a")
    × (any_hop js
          (codes "https://a")
          (crosses_site js (codes "https://a"))
          (codes "https://a" ∷ codes "https://a" ∷ [])
        ≡ false)
    × (any_hop js
          (codes "https://a")
          (leaves_origin js (codes "https://a"))
          (codes "https://a" ∷ codes "https://a" ∷ [])
        ≡ false)
unfolding taint_of redirect_taint navigation_fetch_site same same_site
own_origin-hops_example =
    own_origin-hops js (codes "https://a") (codes "https://a") (codes "https://a" ∷ [])
      (codes "https://a" ∷ codes "https://a" ∷ []) clean navigation (codes "https://a")
      (codes "https://a") refl refl refl refl
