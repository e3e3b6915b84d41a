-- ===== src/Lite/Origins.antt =====
-- apps/everyday/browser-lite/proxy/origin-policy.cjs: the registry of the physical hosts of origins, which forgets the origin
-- used least recently, and the origin of a request. `none` is an exception. The URL parser and the digest of the
-- hosts are arguments; the checks of the constructor are left out.
pub mod Maps
pub mod Recent
pub mod Kept
pub mod Lasts
pub mod Stays
mod Tests
use vibetop.Base.{
  ℕ, Bool, true, false, ◌&&◌, Option, none, some, List, [], ◌∷◌, ◌++◌, if◌then◌else◌, leb, length,
  take, drop, Text, same, codes, lookup, put, remove, ◌>>=◌, ◌>>◌, guard, is_nil, not, after_prefix,
  split_at, trim,
}
use vibetop.Lite.Url.{Url, upstream_url}

pub record Config : Type 0 where
  pub user : Text
  pub profile : Text
  pub secret : Text
  pub domain : Text
  pub protocol : Text
  pub port : Text
  pub limit : ℕ

-- Both maps, in the order of insertion.
pub record Registry : Type 0 where
  pub by_origin : List (Text × Text)
  pub by_host : List (Text × Text)

abbrev pub nothing : Registry
nothing = record { by_origin = []; by_host = [] }

module _ (parse : Text → Option Url) (digest : (secret message : Text) → Text)
    (config : Config) where
  pub hostname : Text → Text
  hostname origin =
      codes "bl-u"
      ++ config.user
      ++ codes "-"
      ++ take 32 (digest config.secret (config.profile ++ 0 ∷ origin))
      ++ codes "."
      ++ config.domain

  abbrev pub port_suffix : Text
  port_suffix = if is_nil config.port then [] else codes ":" ++ config.port

  pub physical_of : Text → Text
  unfolding hostname
  physical_of origin = config.protocol ++ codes "//" ++ hostname origin ++ port_suffix

  -- The oldest entry goes.
  pub forget : Registry → Option Registry
  unfolding remove
  forget s = elim s.by_origin [
    | [] ↦ none
    | (_, physical) ∷ rest ↦ do
      u ← parse physical
      some (record { by_origin = rest; by_host = remove u.host s.by_host })
  ]

  pub make_room : Registry → Option Registry
  unfolding forget
  make_room s = if leb config.limit (length s.by_origin) then forget s else some s

  pub add_new : Text → Registry → Option (Registry × Text)
  unfolding make_room physical_of put
  add_new origin s = do
    t ← make_room s
    u ← parse (physical_of origin)
    some (
      record {
        by_origin = put origin (physical_of origin) t.by_origin;
        by_host = put u.host origin t.by_host;
      },
      physical_of origin,
    )

  pub register_origin : Text → Registry → Option (Registry × Text)
  unfolding add_new lookup put remove
  register_origin origin s = elim (lookup origin s.by_origin) [
    | some physical ↦
        some (record s { by_origin = put origin physical (remove origin s.by_origin) }, physical)
    | none ↦ add_new origin s
  ]

  pub register : Text → Registry → Option (Registry × Text)
  unfolding register_origin upstream_url
  register input s = do url ← upstream_url parse input; register_origin url.origin s

  abbrev non_empty : Text → Option Text
  non_empty t = if is_nil t then none else some t

  -- An empty answer of the map counts as none.
  pub original : Text → Registry → Option Text
  unfolding lookup same
  original physical s = do
    u ← parse physical
    guard (same u.protocol config.protocol)
    origin ← lookup u.host s.by_host
    non_empty origin

  pub verify : (host destination : Text) → Bool
  unfolding hostname upstream_url same
  verify host destination = elim (upstream_url parse destination) [
    | none ↦ false
    | some u ↦ same host (hostname u.origin ++ port_suffix)
  ]

  -- `restore` of saved origins: the registry is changed up to the first bad one.
  pub restore : List Text → Registry → Registry × Bool
  unfolding register
  restore [] s = (s, true)
  restore (input ∷ inputs) s = elim (register input s) [
    | none ↦ (s, false)
    | some (t, _) ↦ restore inputs t
  ]

  -- The headers that name where a request comes from.
  pub record Headers : Type 0 where
    pub origin : Text
    pub referer : Text
    pub fetch_site : Text
    pub host : Text

  abbrev or_null : Option Text → Text
  or_null none = codes "null"
  or_null (some t) = t

  pub request_origin : Headers → Registry → Text
  unfolding original same
  request_origin h s =
      if not (is_nil h.origin)
      then or_null (original h.origin s)
      else if not (is_nil h.referer)
      then or_null (do u ← parse h.referer; original u.origin s)
      else if same h.fetch_site (codes "same-origin")
      then or_null (original (config.protocol ++ codes "//" ++ h.host) s)
      else codes "null"

-- `uniqueCookie`: the value of a cookie that is named just once.
pub with_name : Text → List Text → List Text
unfolding after_prefix trim
with_name name [] = []
with_name name (piece ∷ pieces) =
    let rest = with_name name pieces in
    elim (after_prefix (name ++ codes "=") (trim piece)) [ none ↦ rest | some value ↦ value ∷ rest ]

pub unique_cookie : Text → Text → Option Text
unfolding with_name split_at
unique_cookie header name = elim (with_name name (split_at 59 header)) [
  | [] ↦ none
  | value ∷ [] ↦ some value
  | _ ∷ _ ∷ _ ↦ none
]
