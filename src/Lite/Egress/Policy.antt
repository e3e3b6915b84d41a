-- ===== src/Lite/Egress/Policy.antt =====
-- What a connection of the proxied browser has passed.
use vibetop.Base.{
  ℕ, ◌≡◌, refl, sym, subst, ◌∙◌, ap, Bool, true, false, ◌||◌, not, none, some, List, [], ◌∷◌, ◌==◌,
  arith, Text, same, same_iff, Option-cases, Bool-cases, inl, inr, ◌⊎◌, any, is_nil,
}
use vibetop.Lite.Egress.{
  Ipaddr, Answer, Config, Network, Refusal, Destination, allowed, refused, find, canonical,
  without_brackets, is_under, is_acceptable, is_ipv4, choose, answers_for, destination, Url, Kind,
  Request, connected, target_port, open_target, serve,
}

abbrev pub IsIn : Answer → List Answer → Type 0
IsIn a [] = ⊥
IsIn a (x ∷ xs) = (x ≡ a) ⊎ IsIn a xs

destination-cases :
    (d : Destination) → ((why : Refusal) × (d ≡ refused why)) ⊎ ((x : Answer) × (d ≡ allowed x))
destination-cases (allowed x) = inr (x, refl)
destination-cases (refused why) = inl (why, refl)

module _ {Ip : Type 0} (lib : Ipaddr Ip) (config : Config) where
  abbrev pub AllAcceptable : List Answer → Type 0
  AllAcceptable [] = Unit
  AllAcceptable (x ∷ xs) = (is_acceptable lib config x ≡ true) × AllAcceptable xs

  -- The chosen answer is one of them, of the fourth version where there is one, and all are acceptable.
  abbrev pub IsChosen : List Answer → Answer → Type 0
  IsChosen xs a = AllAcceptable xs × IsIn a xs × (any is_ipv4 xs ≡ true → is_ipv4 a ≡ true)

  all_acceptable :
      (xs : List Answer)
      → any (λ (y : Answer). not (is_acceptable lib config y)) xs ≡ false
      → AllAcceptable xs
  all_acceptable [] h = tt
  all_acceptable (x ∷ xs) h = (ground (arith, h), all_acceptable xs (ground (arith, h)))

  find-IsIn :
      (p : Answer → Bool) (xs : List Answer) (a : Answer)
      → find p xs ≡ some a
      → IsIn a xs × (p a ≡ true)
  unfolding find
  find-IsIn p [] a h = cc
  find-IsIn p (x ∷ xs) a h = elim (Bool-cases (p x)) [
    | inl hit ↦ let e : x ≡ a = ground (arith, h, hit) in (inl e, ap p (sym e) ∙ hit)
    | inr miss ↦
        let (later, passes) = find-IsIn p xs a (ground (arith, h, miss)) in (inr later, passes)
  ]

  find-none : (p : Answer → Bool) (xs : List Answer) → find p xs ≡ none → any p xs ≡ false
  unfolding find
  find-none p [] h = refl
  find-none p (x ∷ xs) h = ground (arith, h, find-none p xs)

  choose-IsChosen :
      (xs : List Answer) (a : Answer) → choose lib config xs ≡ allowed a → IsChosen xs a
  unfolding choose
  choose-IsChosen [] a h = ground (arith, h)
  choose-IsChosen (x ∷ xs) a h =
      let fine : any (λ (y : Answer). not (is_acceptable lib config y)) (x ∷ xs) ≡ false =
        ground (arith, h) in
      let all = all_acceptable (x ∷ xs) fine in
      elim (Option-cases (find is_ipv4 (x ∷ xs))) [
        | inl no_four ↦
            let e : x ≡ a = ground (arith, h, fine, no_four) in
            (all, inl e, λ some_four. ground (arith, some_four, find-none is_ipv4 (x ∷ xs) no_four))
        | inr (four, found) ↦
            let e : four ≡ a = ground (arith, h, fine, found) in
            let (here, is_four) = find-IsIn is_ipv4 (x ∷ xs) a (found ∙ ap some e) in
            (all, here, λ _. is_four)
      ]

  -- A name that may be resolved, and an answer that may be used.
  pub record Permitted (net : Network) (hostname : Text) (port : ℕ) (a : Answer) : Type 0 where
    pub web_port : (port ≡ 80) ⊎ (port ≡ 443)
    pub not_denied :
        any
          (λ (d : Text). is_under (canonical (without_brackets hostname)) (canonical d))
          config.denied_domains
        ≡ false
    pub answers : List Answer
    pub resolved : answers_for net (without_brackets hostname) ≡ some answers
    pub chosen : IsChosen answers a

  destination-Permitted :
      (net : Network) (hostname : Text) (port : ℕ) (a : Answer)
      → destination lib config net hostname port ≡ allowed a
      → Permitted net hostname port a
  unfolding destination
  destination-Permitted net hostname port a h =
      let name = without_brackets hostname in
      let denied =
        any (λ (d : Text). is_under (canonical name) (canonical d)) config.denied_domains in
      elim (Bool-cases (port == 80 || port == 443)) [
        | inr other_port ↦ ground (arith, h, other_port)
        | inl web ↦ elim (Bool-cases (is_nil name || any (λ (c : ℕ). c == 37) name)) [
          | inl bad ↦ ground (arith, h, web, bad)
          | inr good ↦ elim (Bool-cases denied) [
            | inl no_way ↦ ground (arith, h, web, good, no_way)
            | inr free ↦ elim (Option-cases (answers_for net name)) [
              | inl lost ↦ ground (arith, h, web, good, free, lost)
              | inr (answers, got) ↦ record {
                web_port = ground (arith, web);
                not_denied = free;
                answers = answers;
                resolved = got;
                chosen = choose-IsChosen answers a (ground (arith, h, web, good, free, got));
              }
            ]
          ]
        ]
      ]

  -- Whatever is asked of the proxy, it connects only for a request with its credentials, to one of the
  -- ports of the web, to a name that is not denied nor below a denied domain, and to an address that is
  -- one of the answers for that name, of the fourth version where there is one; and all the answers,
  -- not only that one, are public, not denied, and on no network of the host.
  pub serve-connected :
      (net : Network) (kind : Kind) (req : Request) (a : Answer) (port : ℕ)
      → serve lib config net kind req ≡ connected a port
      → (req.credentials ≡ config.authorization)
        × (u : Url) × (req.target ≡ some u)
        × Permitted net u.hostname port a
  unfolding serve open_target
  serve-connected net kind req a port h =
      elim (Bool-cases (same req.credentials config.authorization)) [
        | inr stranger ↦ ground (arith, h, stranger)
        | inl known ↦ elim (Option-cases req.target) [
          | inl no_url ↦ ground (arith, h, known, no_url)
          | inr (u, got) ↦ elim (Option-cases (target_port kind u)) [
            | inl bad ↦ ground (arith, h, known, got, bad)
            | inr (p, checked) ↦
                let opened : open_target lib config net kind req u.hostname p ≡ connected a port =
                  ground (arith, h, known, got, checked) in
                (
                  (same_iff req.credentials config.authorization).0 known,
                  u,
                  got,
                  from_open u.hostname p opened,
                )
          ]
        ]
      ]
    where
      from_open :
          (hostname : Text) (p : ℕ)
          → open_target lib config net kind req hostname p ≡ connected a port
          → Permitted net hostname port a
      from_open hostname p h = elim (destination-cases (destination lib config net hostname p)) [
        | inl (why, e) ↦ ground (arith, h, e)
        | inr (x, e) ↦
            subst (λ q. Permitted net hostname q a) (ground (arith, h, e))
              (subst (λ y. Permitted net hostname p y) (ground (arith, h, e))
                (destination-Permitted net hostname p x e))
      ]
