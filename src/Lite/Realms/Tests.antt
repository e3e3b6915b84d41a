-- ===== src/Lite/Realms/Tests.antt =====
-- A registry over a small platform, and the theorems there.
use vibetop.Base.{
  ◌<◌, ◌>>=◌, ◌∙◌, ◌↔◌, ℕ, ◌+◌, ◌-◌, ◌≡◌, refl, ap, Bool, true, false, not, Option, none, some, [],
  ◌∷◌, ◌++◌, length, take, drop, Text, same, codes, arith, map, split_at, ◌==◌, any, same_option,
}
use vibetop.Lite.Url.{upstream_url}
use vibetop.Lite.Realms.{
  origin_of, authorize_child, authorize_resource, child_context, Context, Platform, Config, Record,
  dot, site, main_context, context_token, host_of, register, original,
}
use vibetop.Lite.Realms.Tokens.{
  context_of, IsContext, Laws, Signed, read_context-Signed, read_context-context_token,
}
use vibetop.Lite.Realms.Authorize.{authorize_child-child_context}
use vibetop.Lite.Realms.File.{Lines, Saved, newline, run_saved, load, text_of}
use vibetop.Lite.Realms.File.Reload.{LineLaws, load-text_of}
use vibetop.Lite.Realms.Registry.{HostLaw}
use vibetop.Lite.Realms.Chain.{chain, tainted-any, OriginLaw}
use vibetop.Lite.Realms.Served.{run, register-original}

abbrev flag : Bool → ℕ
flag true = 1
flag false = 0

-- A context is written with the length of its origin.
abbrev read_fields : Text → Option (Text × Text × Option Bool)
read_fields [] = none
read_fields (_ ∷ []) = none
read_fields (t ∷ n ∷ rest) = some (take n rest, drop n rest, some (t == 1))

abbrev js : Platform
js = record {
  parse = λ t. some (record {
    href = t;
    origin = t;
    protocol = codes "https:";
    username = [];
    password = [];
    hostname = drop 8 t;
    host = drop 8 t;
  });
  is_ip = λ t. false;
  public_suffix = λ t. none;
  hmac = λ key message. 1 ∷ message;
  hex = λ t. t;
  to_base64 = map (λ c. c + 47);
  from_base64 = map (λ c. c - 47);
  print = λ c. flag c.tainted ∷ length c.document_origin ∷ (c.document_origin ++ c.top_site);
  read = read_fields;
}

abbrev config : Config
config = record {
  user = codes "7";
  profile = codes "p";
  secret = codes "s";
  domain = codes "d";
  port = [];
  max_records = 2;
}

map-map : (t : Text) → map (λ c. c - 47) (map (λ c. c + 47) t) ≡ t
map-map [] = refl
map-map (c ∷ cs) = ground (arith, map-map cs)

split_at-map :
    (sep : ℕ)
    → sep < 47
    → (t : Text) → split_at sep (map (λ c. c + 47) t) ≡ map (λ c. c + 47) t ∷ []
unfolding split_at
split_at-map sep low [] = refl
split_at-map sep low (c ∷ cs) = ground (arith, low, split_at-map sep low cs)

take-length :
    (xs ys : Text) → (take (length xs) (xs ++ ys) ≡ xs) × (drop (length xs) (xs ++ ys) ≡ ys)
take-length [] ys = (refl, refl)
take-length (x ∷ xs) ys = let (t, d) = take-length xs ys in (ap (λ r. x ∷ r) t, d)

flag-back : (b : Bool) → (flag b == 1) ≡ b
flag-back true = refl
flag-back false = refl

laws : Laws js
laws = record {
  decodes = map-map;
  no_dot = split_at-map dot (omega arith);
  reads = λ (c : Context).
      let (t, d) = take-length c.document_origin c.top_site in rw (t, d, flag-back c.tainted) refl;
  reads_nothing = refl;
  decodes_nothing = refl;
  signs = λ key message. refl;
}

host_law : HostLaw js config
host_law = record { parsed = λ origin c. (_, refl, refl, refl) }

abbrev here : Context
here = record { document_origin = codes "https://a"; top_site = codes "https://a"; tainted = false }

here-IsContext : IsContext js here
unfolding site upstream_url same
here-IsContext = record { origin = refl; top = refl }

read_context-Signed_example : Signed js config (context_token js config here) here
unfolding context_token
read_context-Signed_example =
    read_context-Signed js config (context_token js config here) here
      (read_context-context_token js config laws here here-IsContext (omega arith))

origin_law : OriginLaw js
unfolding upstream_url same
origin_law url origin e = ground (arith, e)

-- A frame of another site taints the frame of the main site in it.
tainted-any_example :
    true
    ≡ any
        (λ u. not (same_option (site js u) (site js (codes "https://a"))))
        (codes "https://b" ∷ codes "https://a" ∷ [])
unfolding main_context chain site upstream_url same
tainted-any_example =
    tainted-any js origin_law (codes "https://a") (codes "https://b" ∷ codes "https://a" ∷ []) here
      (record { document_origin = codes "https://a"; top_site = codes "https://a"; tainted = true })
      refl refl

abbrev script : Record
script = record {
  origin = codes "https://cdn";
  context = here;
  physical = codes "https://bl-u7-" ++ (1 ∷ codes "https://cdn") ++ codes ".d";
  resource_only = true;
}

register-original_example :
    (original js config script.physical
        ((host_of js config (codes "https://cdn") here, script) ∷ [])
      ≡ some script)
    × ((physical : Text) (old : Record)
        → original js config physical (run js config [] []) ≡ some old
        → original js config physical ((host_of js config (codes "https://cdn") here, script) ∷ [])
          ≡ some old)
    × (codes "https://cdn" ≡ codes "https://cdn")
    × (here ≡ here)
unfolding register run upstream_url same same_option
register-original_example =
    register-original js config host_law [] (codes "https://cdn") here
      ((host_of js config (codes "https://cdn") here, script) ∷ []) script (codes "https://cdn")
      here refl refl refl (λ old e. absurd (cc))

abbrev page : Record
page = record { origin = codes "https://a"; context = here; physical = []; resource_only = false }

authorize_child-child_context_example :
    ((authorize_child js (some page) page ≡ some true) ↔ (
      (false ≡ false) × (false ≡ false) × (child_context js here (codes "https://a") ≡ some here)))
    × ((authorize_resource js (some page) page ≡ true) ↔ (here ≡ here))
authorize_child-child_context_example = authorize_child-child_context laws page page

abbrev read_parts : Text → Option (Text × Context)
read_parts [] = none
read_parts (n ∷ rest) =
    read_fields (drop n rest) >>= λ f. context_of f >>= λ c. some (take n rest, c)

-- A line is the length of the origin, the origin, and the context.
abbrev lines : Lines
lines = record {
  print_line = λ origin c. map (λ k. k + 47) (length origin ∷ (origin ++ js.print c));
  read_line = λ t. read_parts (map (λ k. k - 47) t);
}

line_laws : LineLaws lines
line_laws = record {
  reads = λ origin c.
      let (t, d) = take-length origin (js.print c) in
      let (u, e) = take-length c.document_origin c.top_site in
      ap read_parts (map-map (length origin ∷ (origin ++ js.print c)))
      ∙ rw (t, d, u, e, flag-back c.tainted) refl;
  full = λ origin c. refl;
  one = λ origin c. split_at-map newline (omega arith) (length origin ∷ (origin ++ js.print c));
}

own_origin : (url o : Text) → origin_of js url ≡ some o → origin_of js o ≡ some o
unfolding upstream_url same
own_origin url o e = refl

abbrev saved : Saved
saved =
    run_saved js config lines ((codes "https://cdn", here) ∷ (codes "https://a", here) ∷ [])
      (record { records = []; lines = [] })

load-text_of_example : load js config lines (text_of saved.lines (codes "cut")) ≡ some saved.records
unfolding split_at
load-text_of_example =
    load-text_of js config lines laws line_laws own_origin
      ((codes "https://cdn", here) ∷ (codes "https://a", here) ∷ []) (codes "cut") refl
