-- ===== src/Lite/Egress.antt =====
-- apps/everyday/browser-lite/proxy/egress.cjs: the forward proxy that every connection of the proxied browser takes.
-- The address library, the resolver, the network interfaces, `net.isIP` and the URL parser are arguments; a URL is
-- what the code reads of it. Names are in ASCII, as a parsed URL has them. What is piped is left out.
pub mod Policy
pub mod Slots
pub mod Headers
mod Tests
use vibetop.Base.{
  ℕ, zero, suc, ◌+◌, Bool, true, false, ◌&&◌, ◌||◌, not, Option, none, some, List, [], ◌∷◌, ◌++◌,
  if◌then◌else◌, ltb, leb, ◌==◌, length, map, keep, Text, same, codes, any, lower, is_nil,
  ends_with, to_lower,
}

-- What the code asks of an address of the library `ipaddr.js`. A network is written as text, and an address of the other
-- kind is in none.
pub record Ipaddr (Ip : Type 0) : Type 0 where
  pub parse : Text → Option Ip
  pub is_ipv6 : Ip → Bool
  pub mapped : Ip → Option Ip
  pub is_unicast : Ip → Bool
  pub is_in : Ip → Text → Bool

pub record Answer : Type 0 where
  pub address : Text
  pub family : ℕ

pub record Interface : Type 0 where
  pub address : Text
  pub cidr : Option Text

pub record Config : Type 0 where
  pub denied_addresses : List Text
  pub denied_cidrs : List Text
  pub denied_domains : List Text
  pub interfaces : List Interface
  pub authorization : Text

-- What the network says: `net.isIP`, and the resolver's answers, unless it fails or takes too long.
pub record Network : Type 0 where
  pub family_of : Text → ℕ
  pub resolve : Text → Option (List Answer)

-- Why a destination is refused: by policy, or by another error.
pub data Refusal : Type 0 where
  local_name port_number : Refusal
  invalid unresolved : Refusal

pub data Destination : Type 0 where
  allowed : Answer → Destination
  refused : Refusal → Destination

-- The first that passes a test.
pub find {ℓ} : {A : Type ℓ} → (A → Bool) → List A → Option A
find p [] = none
find p (x ∷ xs) = let rest = find p xs in if p x then some x else rest

-- `replace(/\.+$/, '')`
pub strip_dots : Text → Text
strip_dots [] = []
strip_dots (c ∷ cs) = let rest = strip_dots cs in if c == 46 && is_nil rest then [] else c ∷ rest

pub canonical : Text → Text
unfolding strip_dots
canonical name = strip_dots (to_lower name)

-- `replace(/^\[|\]$/g, '')`
pub strip_last : Text → Text
strip_last [] = []
strip_last (c ∷ []) = if c == 93 then [] else c ∷ []
strip_last (c ∷ d ∷ cs) = c ∷ strip_last (d ∷ cs)

pub without_brackets : Text → Text
unfolding strip_last
without_brackets [] = []
without_brackets (c ∷ cs) = if c == 91 then strip_last cs else strip_last (c ∷ cs)

-- The domain or one below it.
pub is_under : Text → Text → Bool
unfolding ends_with
is_under name domain = same name domain || ends_with name (46 ∷ domain)

abbrev pub is_ipv4 : Answer → Bool
is_ipv4 x = x.family == 4

-- The answers for a name: itself, where it is an address.
pub answers_for : Network → Text → Option (List Answer)
answers_for net name =
    if net.family_of name == 0
    then net.resolve name
    else some (record { address = name; family = net.family_of name } ∷ [])

module _ {Ip : Type 0} (lib : Ipaddr Ip) where
  abbrev pub unmapped : Ip → Ip
  unmapped ip =
      if lib.is_ipv6 ip then (elim (lib.mapped ip) [ none ↦ ip | some four ↦ four ]) else ip

  pub is_public : Ip → Bool
  is_public ip =
      if not (lib.is_unicast ip)
      then false
      else if lib.is_ipv6 ip
      then lib.is_in ip (codes "2000::/3")
        && not (
            any (lib.is_in ip) (
              codes "64:ff9b::/96"
              ∷ codes "64:ff9b:1::/48"
              ∷ codes "2001::/32"
              ∷ codes "2002::/16"
              ∷ []))
      else true

  pub public_address : Text → Bool
  unfolding is_public
  public_address value = elim (lib.parse value) [ none ↦ false | some ip ↦ is_public (unmapped ip) ]

  abbrev pub in_network : Ip → Interface → Bool
  in_network ip x = elim x.cidr [ none ↦ false | some net ↦ lib.is_in ip net ]

  pub is_local : Config → Text → Bool
  is_local config address = elim (lib.parse address) [
    | none ↦ true
    | some ip ↦
        any (λ (x : Interface). same x.address address) config.interfaces
        || any (lib.is_in ip) config.denied_cidrs
        || any (in_network ip) config.interfaces
  ]

  -- An address that a connection may go to.
  pub is_acceptable : Config → Answer → Bool
  unfolding public_address is_local
  is_acceptable config x = not (
      not (public_address x.address)
      || any (same x.address) config.denied_addresses
      || is_local config x.address)

  pub choose : Config → List Answer → Destination
  unfolding is_acceptable find
  choose config [] = refused local_name
  choose config (x ∷ xs) =
      if any (λ (y : Answer). not (is_acceptable config y)) (x ∷ xs)
      then refused local_name
      else elim (find is_ipv4 (x ∷ xs)) [ none ↦ allowed x | some four ↦ allowed four ]

  pub destination : Config → Network → Text → ℕ → Destination
  unfolding without_brackets canonical is_under choose answers_for
  destination config net hostname port =
      let name = without_brackets hostname in
      let bad_name = is_nil name || any (λ (c : ℕ). c == 37) name in
      let denied =
        any (λ (d : Text). is_under (canonical name) (canonical d)) config.denied_domains in
      if not (port == 80 || port == 443)
      then refused port_number
      else if bad_name
      then refused invalid
      else if denied
      then refused local_name
      else elim (answers_for net name) [
        | none ↦ refused unresolved
        | some answers ↦ choose config answers
      ]

-- A parsed URL.
pub record Url : Type 0 where
  pub protocol : Text
  pub username : Text
  pub password : Text
  pub hostname : Text
  pub port : Option ℕ
  pub pathname : Text
  pub search : Text
  pub hash : Text

pub data Kind : Type 0 where
  plain connect websocket : Kind

pub record Request : Type 0 where
  pub credentials : Text
  pub target : Option Url
  pub asks_websocket : Bool

-- The reply: an error for the credentials, a refusal with the kind that it names, or a connection.
pub data Reply : Type 0 where
  unauthorized : Reply
  forbidden : Option Refusal → Reply
  connected : Answer → ℕ → Reply

-- `blockedHeader`
pub blocked_header : Refusal → Option Refusal
blocked_header local_name = some local_name
blocked_header port_number = some port_number
blocked_header invalid = none
blocked_header unresolved = none

abbrev pub or_port : Option ℕ → ℕ → ℕ
or_port none default = default
or_port (some p) default = p

abbrev pub has_user : Url → Bool
has_user u = not (is_nil u.username) || not (is_nil u.password)

-- The checks of a target, and its port.
pub target_port : Kind → Url → Option ℕ
target_port plain u =
    if not (same u.protocol (codes "http:")) || has_user u then none else some (or_port u.port 80)
target_port connect u =
    if has_user u
      || not (same u.pathname (codes "/"))
      || not (is_nil u.search)
      || not (is_nil u.hash)
    then none
    else some (or_port u.port 443)
target_port websocket u =
    if not (same u.protocol (codes "http:") || same u.protocol (codes "ws:")) || has_user u
    then none
    else some (or_port u.port 80)

module _ {Ip : Type 0} (lib : Ipaddr Ip) (config : Config) (net : Network) where
  abbrev pub named : Kind → Refusal → Option Refusal
  named plain why = blocked_header why
  named connect why = blocked_header why
  named websocket why = none

  abbrev pub accepted : Kind → Request → Bool
  accepted plain req = true
  accepted connect req = true
  accepted websocket req = req.asks_websocket

  pub open_target : Kind → Request → Text → ℕ → Reply
  unfolding destination blocked_header
  open_target kind req hostname port = elim (destination lib config net hostname port) [
    | refused why ↦ forbidden (named kind why)
    | allowed x ↦ if accepted kind req then connected x port else forbidden none
  ]

  -- `request`, `tunnel` and `upgrade`, where the connection succeeds.
  pub serve : Kind → Request → Reply
  unfolding open_target target_port
  serve kind req =
      if not (same req.credentials config.authorization) then unauthorized else elim req.target [
        | none ↦ forbidden none
        | some u ↦ elim (target_port kind u) [
          | none ↦ forbidden none
          | some port ↦ open_target kind req u.hostname port
        ]
      ]
