-- ===== src/Lite/Realms.antt =====
-- apps/everyday/browser-lite/proxy/realm-policy.cjs: the contexts of documents, the tokens that carry them, and the
-- registry of the physical hosts that serve an origin in a context. `none` is an exception. The platform (the
-- URL parser, the list of public suffixes, HMAC, base64url and JSON) is an argument. File has the registry with its file; the
-- checks of the constructor are left out.
pub mod Tokens
pub mod Authorize
pub mod File
mod Tests
pub mod Chain
pub mod Served
pub mod Registry
use vibetop.Base.{
  ℕ, ◌+◌, Bool, true, false, ◌&&◌, ◌||◌, not, Option, none, some, List, [], ◌∷◌, ◌++◌,
  if◌then◌else◌, ltb, leb, length, take, Text, same, codes, lookup, put, map, is_nil, split_at,
  ◌>>=◌, ◌>>◌, guard, same_option,
}
use vibetop.Lite.Egress.{without_brackets}
use vibetop.Lite.Url.{Url, upstream_url}

-- A context belongs to a document.
pub record Context : Type 0 where
  pub document_origin : Text
  pub top_site : Text
  pub tainted : Bool

-- What the platform offers. A text that is read as JSON gives two texts and a third value, which is a Boolean or not.
pub record Platform : Type 0 where
  pub parse : Text → Option Url
  pub is_ip : Text → Bool
  pub public_suffix : Text → Option Text
  pub hmac : (key : Text) → (message : Text) → Text
  pub hex : Text → Text
  pub to_base64 : Text → Text
  pub from_base64 : Text → Text
  pub print : Context → Text
  pub read : Text → Option (Text × Text × Option Bool)

pub record Config : Type 0 where
  pub user : Text
  pub profile : Text
  pub secret : Text
  pub domain : Text
  pub port : Text
  pub max_records : ℕ

abbrev pub dot : ℕ
dot = 46

module _ (js : Platform) where
  abbrev or_hostname : Option Text → Text → Text
  or_hostname none hostname = hostname
  or_hostname (some d) hostname = if is_nil d then hostname else d

  unfoldable pub site : Text → Option Text
  unfolding upstream_url
  site input = do
    url ← upstream_url js.parse input
    some (
        if js.is_ip (without_brackets url.hostname)
        then url.protocol ++ codes "//" ++ url.hostname
        else url.protocol ++ codes "//" ++ or_hostname (js.public_suffix url.hostname) url.hostname)

  abbrev pub origin_of : Text → Option Text
  origin_of input = do url ← upstream_url js.parse input; some url.origin

  unfoldable pub main_context : Text → Option Context
  main_context url = do
    origin ← origin_of url
    top ← site url
    some (record { document_origin = origin; top_site = top; tainted = false })

  pub child_context : Context → Text → Option Context
  child_context parent url = do
    origin ← origin_of url
    own ← site parent.document_origin
    new ← site origin
    some (record {
      document_origin = origin;
      top_site = parent.top_site;
      tainted = parent.tainted || not (same own parent.top_site) || not (same new parent.top_site);
    })

  abbrev pub context_key : Context → Text
  context_key c = js.print c

  pub checked : Text × Text × Option Bool → Option Context
  unfolding site
  checked (origin, top, none) = none
  checked (origin, top, some tainted) = do
    guard (same_option (origin_of origin) (some origin))
    guard (same_option (site top) (some top))
    some (record { document_origin = origin; top_site = top; tainted = tainted })

-- The two parts of a token.
pub parts : List Text → Option (Text × Text)
parts (d ∷ s ∷ []) = if is_nil d || is_nil s then none else some (d, s)
parts [] = none
parts (_ ∷ []) = none
parts (_ ∷ _ ∷ _ ∷ _) = none

pub record Record : Type 0 where
  pub origin : Text
  pub context : Context
  pub physical : Text
  pub resource_only : Bool

-- The records by physical host.
abbrev pub Records : Type 0
Records = List (Text × Record)

module _ (js : Platform) (config : Config) where
  pub signature_of : Text → Text
  signature_of data_part =
      js.hmac config.secret (config.profile ++ 0 ∷ codes "context" ++ 0 ∷ data_part)

  pub context_token : Context → Text
  unfolding signature_of
  context_token c =
      let data_part = js.to_base64 (context_key js c) in
      data_part ++ dot ∷ js.to_base64 (signature_of data_part)

  pub read_context : Text → Option Context
  unfolding signature_of parts checked split_at
  read_context token = do
    guard (leb (length token) 2048)
    both ← parts (split_at dot token)
    guard (same (js.from_base64 both.1) (signature_of both.0))
    fields ← js.read (js.from_base64 both.0)
    checked js fields

  abbrev pub resource_key : Context → Text
  resource_key c =
      js.hmac config.secret (config.profile ++ 0 ∷ codes "resource-realm" ++ 0 ∷ context_key js c)

  pub digest : Text → Context → Text
  digest origin c = take 32 (
      js.hex (
        if not (same origin c.document_origin)
        then js.hmac (resource_key c) origin
        else js.hmac config.secret
            (config.profile ++ 0 ∷ codes "realm" ++ 0 ∷ origin ++ 0 ∷ context_key js c)))

  abbrev pub port_suffix : Text
  port_suffix = if is_nil config.port then [] else codes ":" ++ config.port

  -- The host that serves an origin in a context.
  abbrev pub host_of : Text → Context → Text
  host_of origin c =
      codes "bl-u"
      ++ config.user
      ++ codes "-"
      ++ digest origin c
      ++ codes "."
      ++ config.domain
      ++ port_suffix

  pub describe : Text → Context → Option Record
  unfolding read_context context_token digest
  describe url c = do
    origin ← origin_of js url
    context ← read_context (context_token c)
    some (record {
      origin = origin;
      context = context;
      physical = codes "https://" ++ host_of origin context;
      resource_only = not (same origin context.document_origin);
    })

  pub add_record : Text → Record → Records → Option (Records × Record)
  unfolding lookup put
  add_record host r records = elim (lookup host records) [
    | some old ↦ some (records, old)
    | none ↦ if leb config.max_records (length records) then none else some (put host r records, r)
  ]

  pub register : Text → Context → Records → Option (Records × Record)
  unfolding describe add_record
  register url c records = do
    r ← describe url c
    u ← js.parse r.physical
    add_record u.host r records

  pub recover : (host url token : Text) → Records → Option (Records × Record)
  unfolding read_context digest register
  recover host url token records = do
    c ← read_context token
    origin ← origin_of js url
    guard (same (host_of origin c) host)
    register url c records

  pub original : Text → Records → Option Record
  unfolding lookup
  original physical records = do
    url ← js.parse physical
    r ← lookup url.host records
    guard (same r.physical url.origin)
    some r

module _ (js : Platform) where
  pub authorize_resource : Option Record → Record → Bool
  unfolding same
  authorize_resource none target = false
  authorize_resource (some source) target =
      same (context_key js source.context) (context_key js target.context)

  -- The outer `none` is the exception of a bad origin.
  pub authorize_child : Option Record → Record → Option Bool
  unfolding child_context same
  authorize_child none target = some false
  authorize_child (some source) target =
      if source.resource_only || target.resource_only then some false else (do
        child ← child_context js source.context target.origin
        some (same (context_key js child) (context_key js target.context)))

  unfoldable pub cookie_context : Record → Option Bool
  unfolding site same
  cookie_context r =
      if r.context.tainted
      then some false
      else (do own ← site js r.origin; some (same own r.context.top_site))
