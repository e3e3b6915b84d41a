-- ===== src/Lite/Origins/Tests.antt =====
-- A registry of two origins over a small parser, and the theorems there.
use vibetop.Base.{
  ◌≤◌, ◌≡◌, refl, subst, ap, get_elem?, Option, none, some, [], ◌∷◌, Text, codes, drop, same,
  lookup, arith, length, take, put, remove, split_at, trim,
}
use vibetop.Lite.Url.{Url, upstream_url}
use vibetop.Lite.Origins.{Config, nothing, physical_of, hostname, register, original, unique_cookie}
use vibetop.Lite.Origins.Maps.{host_of, HostLaw}
use vibetop.Lite.Origins.Kept.{run, run-original_host}
use vibetop.Lite.Origins.Lasts.{original-run}

abbrev address : Text → Url
address t = record {
  href = t;
  origin = t;
  protocol = take 6 t;
  username = [];
  password = [];
  hostname = drop 8 t;
  host = drop 8 t;
}

abbrev parse : Text → Option Url
parse t = some (address t)

abbrev digest : Text → Text → Text
digest secret message = message

abbrev config : Config
config = record {
  user = codes "7";
  profile = codes "p";
  secret = codes "s";
  domain = codes "d";
  protocol = codes "https:";
  port = [];
  limit = 2;
}

law : HostLaw parse digest config
unfolding physical_of hostname
law o = (parse_of o, refl, refl, refl)
  where
    parse_of : (o : Text) → Url
    parse_of o = record {
      href = physical_of parse digest config o;
      origin = physical_of parse digest config o;
      protocol = codes "https:";
      username = [];
      password = [];
      hostname = host_of parse digest config o;
      host = host_of parse digest config o;
    }

-- The third origin puts the first out, but the one used again stays.
first_out :
    original parse digest config (physical_of parse digest config (codes "https://a")) (
      run parse digest config
        (codes "https://a" ∷ codes "https://b" ∷ codes "https://c" ∷ [])
        nothing)
    ≡ none
unfolding run register original upstream_url same lookup put remove
first_out = refl

cookie_twice : unique_cookie (codes "a=1; b=2; a=3") (codes "a") ≡ none
unfolding unique_cookie split_at trim
cookie_twice = refl

cookie_once : unique_cookie (codes "a=1; b=2; a=3") (codes "b") ≡ some (codes "2")
unfolding unique_cookie split_at trim
cookie_once = refl

run-original_host_example :
    (length
        (run parse digest config
          (codes "https://a" ∷ codes "https://b" ∷ codes "https://c" ∷ [])
          nothing).by_origin
      ≤ 2)
    × (lookup
          (codes "https://c")
          (run parse digest config
            (codes "https://a" ∷ codes "https://b" ∷ codes "https://c" ∷ [])
            nothing).by_origin
        ≡ some (physical_of parse digest config (codes "https://c")))
    × (u : Url) × (parse (physical_of parse digest config (codes "https://c")) ≡ some u)
    × (u.host ≡ host_of parse digest config (codes "https://c"))
    × (u.protocol ≡ codes "https:")
unfolding run register original upstream_url same lookup put remove
run-original_host_example =
    run-original_host parse digest config law (omega arith)
      (codes "https://a" ∷ codes "https://b" ∷ codes "https://c" ∷ [])
      (physical_of parse digest config (codes "https://c")) (codes "https://c") refl

abbrev IsApart : Text → Type 0
IsApart t =
    host_of parse digest config t ≡ host_of parse digest config (codes "https://a")
    → t ≡ codes "https://a"

b-IsApart : IsApart (codes "https://b")
unfolding hostname
b-IsApart e =
    let other : some 98 ≡ some 97 = ap (λ t. get_elem? t 16) e in absurd (ground (arith, other))

c-IsApart : IsApart (codes "https://c")
unfolding hostname
c-IsApart e =
    let other : some 99 ≡ some 97 = ap (λ t. get_elem? t 16) e in absurd (ground (arith, other))

b_other : (u : Url) → upstream_url parse (codes "https://b") ≡ some u → IsApart u.origin
unfolding upstream_url same
b_other u e = let o : codes "https://b" ≡ u.origin = ground (arith, e) in subst IsApart o b-IsApart

c_other : (u : Url) → upstream_url parse (codes "https://c") ≡ some u → IsApart u.origin
unfolding upstream_url same
c_other u e = let o : codes "https://c" ≡ u.origin = ground (arith, e) in subst IsApart o c-IsApart

original-run_example :
    original parse digest config (physical_of parse digest config (codes "https://a")) (
      run parse digest config
        (codes "https://c" ∷ [])
        (run parse digest config (codes "https://b" ∷ codes "https://a" ∷ []) nothing))
    ≡ some (codes "https://a")
unfolding run register original upstream_url same lookup put remove
original-run_example =
    original-run parse digest config (codes "https://a") law (omega arith) (codes "https://b" ∷ [])
      (codes "https://c" ∷ []) (codes "https://a") (address (codes "https://a"))
      (run parse digest config (codes "https://b" ∷ codes "https://a" ∷ []) nothing)
      (physical_of parse digest config (codes "https://a")) refl refl refl refl (b_other, tt)
      (c_other, tt) (omega arith)
