-- ===== src/Lite/Egress/Headers.antt =====
-- `headers`: what a plain request or an upgrade says to the site. Headers are a map by name in lower case.
use vibetop.Base.{
  ◌≡◌, refl, ◌∙◌, Bool, true, false, none, some, List, [], ◌∷◌, ◌||◌, ◌&&◌, if◌then◌else◌, arith,
  Text, same, same_iff, codes, lookup, put, remove, lookup-put, lookup-remove, is_one_of, trim,
  to_lower, split_at,
}

abbrev pub Headers : Type 0
Headers = List (Text × Text)

abbrev pub remove_all : List Text → Headers → Headers
remove_all [] h = h
remove_all (k ∷ ks) h = remove_all ks (remove k h)

-- The names that `connection` lists, where it is absent the empty one.
pub listed : Headers → List Text
unfolding split_at trim lookup
listed h = elim (lookup (codes "connection") h) [
  | none ↦ names (split_at 44 [])
  | some v ↦ names (split_at 44 v)
]
  where
    names : List Text → List Text
    names [] = []
    names (t ∷ ts) = to_lower (trim t) ∷ names ts

abbrev pub hop_names : List Text
hop_names =
    codes "connection"
    ∷ codes "keep-alive"
    ∷ codes "te"
    ∷ codes "trailer"
    ∷ codes "transfer-encoding"
    ∷ codes "upgrade"
    ∷ codes "proxy-authorization"
    ∷ codes "proxy-connection"
    ∷ []

pub headers : Text → Bool → Headers → Headers
unfolding listed remove put
headers host upgrade h =
    let hosted = put (codes "host") host h in
    let kept = remove_all hop_names (remove_all (listed hosted) hosted) in
    put (codes "host") host (
      if upgrade
      then put (codes "upgrade") (codes "websocket")
          (put (codes "connection") (codes "Upgrade") kept)
      else kept)

same_sym : (a b : Text) → same a b ≡ same b a
same_sym a b = ground (arith, same_iff a b, same_iff b a)

lookup-remove_all :
    (k : Text) (ks : List Text) (h : Headers)
    → lookup k (remove_all ks h) ≡ (if is_one_of k ks then none else lookup k h)
lookup-remove_all k [] h = refl
lookup-remove_all k (j ∷ ks) h =
    ground
      (arith, lookup-remove_all k ks (remove j h), lookup-remove j k h, same_iff j k, same_iff k j)

-- The three writes at the end, of which the last goes first.
lookup-written :
    (k a b c x y z : Text) (upgrade : Bool) (h : Headers)
    → lookup k (put a x (if upgrade then put b y (put c z h) else h)) ≡ (
        if same k a
        then some x
        else if upgrade && same k b
        then some y
        else if upgrade && same k c
        then some z
        else lookup k h)
lookup-written k a b c x y z true h = ground (
  arith,
  lookup-put a k x (put b y (put c z h)),
  lookup-put b k y (put c z h),
  lookup-put c k z h,
  same_sym k a,
  same_sym k b,
  same_sym k c,
)
lookup-written k a b c x y z false h = ground (arith, lookup-put a k x h, same_sym k a)

-- What a header of the request becomes: the host is the target's; an upgrade names itself; and of the rest
-- none passes that is of one hop, carries the credentials of the proxy, or is listed as one by the
-- request, and all others pass as they came.
pub lookup-headers :
    (k host : Text) (upgrade : Bool) (h : Headers)
    → lookup k (headers host upgrade h) ≡ (
        if same k (codes "host")
        then some host
        else if upgrade && same k (codes "upgrade")
        then some (codes "websocket")
        else if upgrade && same k (codes "connection")
        then some (codes "Upgrade")
        else if is_one_of k hop_names || is_one_of k (listed (put (codes "host") host h))
        then none
        else lookup k h)
unfolding headers
lookup-headers k host upgrade h =
    let hosted = put (codes "host") host h in
    let less = remove_all (listed hosted) hosted in
    lookup-written k (codes "host") (codes "upgrade") (codes "connection") host (codes "websocket")
      (codes "Upgrade") upgrade (remove_all hop_names less)
    ∙ ground (
      arith,
      lookup-remove_all k hop_names less,
      lookup-remove_all k (listed hosted) hosted,
      lookup-put (codes "host") k host h,
      same_sym k (codes "host"),
    )
