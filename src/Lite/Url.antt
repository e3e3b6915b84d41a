-- ===== src/Lite/Url.antt =====
-- apps/everyday/browser-lite/proxy/origin-policy.cjs: `upstreamUrl`, over the platform's URL parser,
-- which is an argument: `none` is its exception.
use vibetop.Base.{Bool, ◌&&◌, ◌||◌, Option, none, some, [], if◌then◌else◌, Text, same, codes}

pub record Url : Type 0 where
  pub href : Text
  pub origin : Text
  pub protocol : Text
  pub username : Text
  pub password : Text
  pub hostname : Text
  pub host : Text

-- An HTTP or HTTPS address without embedded credentials, or an exception.
is_upstream : Url → Bool
is_upstream u =
    (same u.protocol (codes "http:") || same u.protocol (codes "https:"))
    && same u.username []
    && same u.password []

unfoldable pub upstream_url : (Text → Option Url) → Text → Option Url
unfolding is_upstream
upstream_url parse input = elim (parse input) [
  | none ↦ none
  | some u ↦ if is_upstream u then some u else none
]
