-- ===== src/Lite/Egress/Tests.antt =====
-- The proxy with a small address library, and the theorems there.
use vibetop.Base.{
  true, ◌≡◌, refl, false, none, some, [], ◌∷◌, Text, codes, same, if◌then◌else◌, lookup,
}
use vibetop.Lite.Egress.{
  Ipaddr, Config, Network, Url, Request, connect, forbidden, serve, local_name,
}
use vibetop.Lite.Egress.Headers.{Headers, headers, lookup-headers}
use vibetop.Lite.Egress.Policy.{Permitted, serve-connected}
use vibetop.Lite.Egress.Slots.{nobody, Reach, Reach-stalled}

-- Addresses that begin with a one are public.
abbrev library : Ipaddr Text
library = record {
  parse = λ t. some t;
  is_ipv6 = λ t. false;
  mapped = λ t. none;
  is_unicast = λ (t : Text). elim t [ [] ↦ false | c ∷ _ ↦ same (c ∷ []) (codes "1") ];
  is_in = λ t net. false;
}

abbrev config : Config
config = record {
  denied_addresses = codes "1.9" ∷ [];
  denied_cidrs = [];
  denied_domains = codes "home.lan." ∷ [];
  interfaces = [];
  authorization = codes "Basic x";
}

abbrev net : Network
net = record {
  family_of = λ t. 0;
  resolve = λ t.
      if same t (codes "mixed")
      then some (
          record { address = codes "1.1"; family = 6 }
          ∷ record { address = codes "9.1"; family = 4 }
          ∷ [])
      else some (
          record { address = codes "1.1"; family = 6 }
          ∷ record { address = codes "1.2"; family = 4 }
          ∷ []);
}

abbrev request_to : Text → Request
request_to host = record {
  credentials = codes "Basic x";
  target = some (record {
    protocol = codes "https:";
    username = [];
    password = [];
    hostname = host;
    port = none;
    pathname = codes "/";
    search = [];
    hash = [];
  });
  asks_websocket = false;
}

-- One answer that is not public is enough to refuse a name.
mixed : serve library config net connect (request_to (codes "mixed")) ≡ forbidden (some local_name)
unfolding serve same
mixed = refl

denied :
    serve library config net connect (request_to (codes "NAS.Home.lan"))
    ≡ forbidden (some local_name)
unfolding serve same
denied = refl

serve-connected_example :
    (codes "Basic x" ≡ codes "Basic x")
    × (u : Url) × ((request_to (codes "site")).target ≡ some u)
    × Permitted library config net u.hostname 443 (record { address = codes "1.2"; family = 4 })
unfolding serve same
serve-connected_example =
    serve-connected library config net connect (request_to (codes "site"))
      (record { address = codes "1.2"; family = 4 }) 443 refl

Reach-stalled_example : Reach 384 nobody (record nobody { waiters = 5 ∷ [] })
Reach-stalled_example = Reach-stalled 384 5

abbrev request_headers : Headers
request_headers =
    (codes "host", codes "old")
    ∷ (codes "connection", codes "close, X-Hop")
    ∷ (codes "proxy-authorization", codes "Basic x")
    ∷ (codes "x-hop", codes "1")
    ∷ (codes "accept", codes "text")
    ∷ []

-- The credentials of the proxy do not reach the site.
lookup-headers_example :
    lookup (codes "proxy-authorization") (headers (codes "site") true request_headers) ≡ none
unfolding same
lookup-headers_example =
    lookup-headers (codes "proxy-authorization") (codes "site") true request_headers
