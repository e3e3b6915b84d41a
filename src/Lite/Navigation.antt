-- ===== src/Lite/Navigation.antt =====
-- apps/everyday/browser-lite/proxy/navigation.cjs: the store of captured navigations, from capture
-- over approval and dispatch to completion. Texts and bodies are lists of numbers. The clock, the
-- random identifiers and the platform's URL parser are arguments. The map of tickets holds the very record objects of the map of pending navigations;
-- here it holds their challenges, under which the records are found.
pub mod Account
pub mod Room
pub mod Step
pub mod Tickets
mod Tests
use vibetop.Base.{
  ℕ, ◌+◌, ◌-◌, Bool, true, false, ◌&&◌, ◌||◌, not, Option, none, some, List, [], ◌∷◌, if◌then◌else◌,
  ◌==◌, leb, length, Text, same, lookup, put, remove, same_option,
}
use vibetop.Lite.Url.{Url, upstream_url}

pub data Method : Type 0 where
  get head post : Method
  other_method : Text → Method

pub data Taint : Type 0 where
  same_origin same_site cross_site : Taint
  other_taint : Text → Taint

pub data State : Type 0 where
  captured approved dispatching : State

pub record Navigation : Type 0 where
  pub challenge : Text
  pub url : Text
  pub method : Method
  pub body : Text
  pub content_type : Text
  pub source_origin : Option Text
  pub tab_id : Text
  pub epoch : ℕ
  pub initiator_origin : Option Text
  pub cross_site_redirect : Bool
  pub redirect_count : ℕ
  pub origin_taint : Taint
  pub expires : ℕ
  pub state : State
  pub ticket : Option Text

pub record Store : Type 0 where
  pub pending : List (Text × Navigation)
  pub tickets : List (Text × Text)
  pub bytes : ℕ

pub record Options : Type 0 where
  pub ttl : ℕ
  pub approved_ttl : ℕ
  pub max_pending : ℕ
  pub max_per_tab : ℕ
  pub max_bytes : ℕ
  pub max_bytes_per_tab : ℕ

-- The argument of `capture`, with its defaults filled in.
pub record Capture : Type 0 where
  pub url : Text
  pub method : Method
  pub body : Text
  pub content_type : Text
  pub source_origin : Option Text
  pub tab_id : Text
  pub epoch : ℕ
  pub initiator_origin : Option Text
  pub cross_site_redirect : Bool
  pub redirect_count : ℕ
  pub origin_taint : Taint

pub data Error : Type 0 where
  invalid_url invalid_navigation invalid_redirect_origin invalid_redirect_chain : Error
  too_many too_many_in_tab unexpected_body stale not_running : Error

pub data Result (A : Type 0) : Type 0 where
  ok : A → Result A
  err : Error → Result A

abbrev pub is_dispatching : State → Bool
is_dispatching dispatching = true
is_dispatching _ = false

abbrev is_captured : State → Bool
is_captured captured = true
is_captured _ = false

abbrev is_approved : State → Bool
is_approved approved = true
is_approved _ = false

pub drop_ticket : Option Text → List (Text × Text) → List (Text × Text)
drop_ticket none ts = ts
drop_ticket (some t) ts = remove t ts

-- `remove(record)`
pub remove_record : Navigation → Store → Store
unfolding drop_ticket
remove_record r s = record {
  pending = remove r.challenge s.pending;
  tickets = drop_ticket r.ticket s.tickets;
  bytes = s.bytes - length r.body;
}

pub cancel_found : Option Navigation → Store → Store × Bool
unfolding remove_record
cancel_found none s = (s, false)
cancel_found (some r) s = if is_dispatching r.state then (s, false) else (remove_record r s, true)

pub cancel : Text → Store → Store × Bool
unfolding cancel_found
cancel id s = cancel_found (lookup id s.pending) s

-- The loop of `collect` over the entries that were there when it began.
pub collect_over : ℕ → List (Text × Navigation) → Store → Store
unfolding cancel
collect_over now [] s = s
collect_over now ((id, r) ∷ es) s =
    collect_over now es
      (if leb r.expires now && not (is_dispatching r.state) then (cancel id s).0 else s)

pub collect : ℕ → Store → Store
unfolding collect_over
collect now s = collect_over now s.pending s

-- The navigations of one tab: how many, and the bytes of their bodies.
pub owned_count : Text → List (Text × Navigation) → ℕ
owned_count tab [] = 0
owned_count tab ((_, r) ∷ es) = (if same r.tab_id tab then 1 else 0) + owned_count tab es

pub owned_bytes : Text → List (Text × Navigation) → ℕ
owned_bytes tab [] = 0
owned_bytes tab ((_, r) ∷ es) =
    (if same r.tab_id tab then length r.body else 0) + owned_bytes tab es

abbrev has_line_break : Text → Bool
has_line_break [] = false
has_line_break (c ∷ cs) = c == 13 || c == 10 || has_line_break cs

abbrev is_known_method : Method → Bool
is_known_method (other_method _) = false
is_known_method _ = true

abbrev is_bodiless : Method → Bool
is_bodiless get = true
is_bodiless head = true
is_bodiless _ = false

abbrev is_known_taint : Taint → Bool
is_known_taint (other_taint _) = false
is_known_taint _ = true

is_well_formed : Capture → Bool
is_well_formed c =
    is_known_method c.method
    && leb 1 (length c.tab_id)
    && leb (length c.tab_id) 128
    && leb c.epoch 9007199254740991
    && not (has_line_break c.content_type)

-- `if(origin !== null) origin = upstreamUrl(origin).origin`; the outer `none` is its exception.
normal_origin : (Text → Option Url) → Option Text → Option (Option Text)
normal_origin parse none = some none
normal_origin parse (some origin) = elim (upstream_url parse origin) [
  | none ↦ none
  | some u ↦ some (some u.origin)
]

infixl 5 ◌>>=◌ ◌>>◌
abbrev pub ◌>>=◌ : {A B : Type 0} → Result A → (A → Result B) → Result B
ok a >>= f = f a
err e >>= f = err e

abbrev pub ◌>>◌ : {B : Type 0} → Result (Unit {0}) → Result B → Result B
m >> k = m >>= λ _. k

abbrev require : Bool → Error → Result (Unit {0})
require true e = ok tt
require false e = err e

abbrev or_throw : {A : Type 0} → Option A → Error → Result A
or_throw none e = err e
or_throw (some a) e = ok a

-- The record that `capture` makes of its argument, or the exception, at the store `s`.
pub admit : (Text → Option Url) → Options → ℕ → Text → Capture → Store → Result Navigation
unfolding is_well_formed normal_origin owned_count owned_bytes upstream_url
admit parse o now challenge c s = do
  u ← or_throw (upstream_url parse c.url) invalid_url
  require (is_well_formed c) invalid_navigation
  source ← or_throw (normal_origin parse c.source_origin) invalid_url
  initiator ← or_throw (normal_origin parse c.initiator_origin) invalid_url
  require (is_known_taint c.origin_taint) invalid_redirect_origin
  require (leb c.redirect_count 20) invalid_redirect_chain
  require (not (leb o.max_pending (length s.pending)) && leb (s.bytes + length c.body) o.max_bytes)
      too_many
  require
      (not (leb o.max_per_tab (owned_count c.tab_id s.pending))
        && leb (length c.body + owned_bytes c.tab_id s.pending) o.max_bytes_per_tab)
      too_many_in_tab
  require (not (is_bodiless c.method) || length c.body == 0) unexpected_body
  ok (record {
    challenge = challenge;
    url = u.href;
    method = c.method;
    body = c.body;
    content_type = c.content_type;
    source_origin = source;
    tab_id = c.tab_id;
    epoch = c.epoch;
    initiator_origin = initiator;
    cross_site_redirect = c.cross_site_redirect;
    redirect_count = c.redirect_count;
    origin_taint = c.origin_taint;
    expires = now + o.ttl;
    state = captured;
    ticket = none;
  })

pub insert_record : Result Navigation → Store → Store × Result Text
insert_record (err e) s = (s, err e)
insert_record (ok r) s = (
  record s { pending = put r.challenge r s.pending; bytes = s.bytes + length r.body },
  ok r.challenge,
)

pub capture : (Text → Option Url) → Options → ℕ → Text → Capture → Store → Store × Result Text
unfolding collect admit insert_record
capture parse o now challenge c s =
    let t = collect now s in insert_record (admit parse o now challenge c t) t

abbrev pub may_approve : Text → ℕ → Option Text → Navigation → Bool
may_approve tab epoch source r =
    is_captured r.state
    && same r.tab_id tab
    && r.epoch == epoch
    && same_option r.source_origin source

abbrev pub approved_record : Options → ℕ → Text → Navigation → Navigation
approved_record o now ticket r = record r {
  state = approved;
  expires = now + o.approved_ttl;
  ticket = some ticket;
}

pub approve_found :
    Options → ℕ → Text → Text → ℕ → Option Text → Option Navigation → Store → Store × Result Text
approve_found o now ticket tab epoch source none s = (s, err stale)
approve_found o now ticket tab epoch source (some r) s =
    if may_approve tab epoch source r
    then (
      record s {
        pending = put r.challenge (approved_record o now ticket r) s.pending;
        tickets = put ticket r.challenge s.tickets;
      },
      ok ticket,
    )
    else (s, err stale)

pub approve : Options → ℕ → Text → Text → Text → ℕ → Option Text → Store → Store × Result Text
unfolding collect approve_found
approve o now ticket challenge tab epoch source s =
    let t = collect now s in
    approve_found o now ticket tab epoch source (lookup challenge t.pending) t

-- The record that the map of tickets holds.
pub held : Option Text → Store → Option Navigation
held none s = none
held (some challenge) s = lookup challenge s.pending

pub ticketed : Text → Store → Option Navigation
unfolding held
ticketed ticket s = held (lookup ticket s.tickets) s

abbrev pub may_dispatch : Text → ℕ → Navigation → Bool
may_dispatch tab epoch r = is_approved r.state && same r.tab_id tab && r.epoch == epoch

pub dispatch_found : Text → Text → ℕ → Option Navigation → Store → Store × Result Navigation
dispatch_found ticket tab epoch none s = (s, err stale)
dispatch_found ticket tab epoch (some r) s =
    if may_dispatch tab epoch r
    then (
      record s {
        pending = put r.challenge (record r { state = dispatching }) s.pending;
        tickets = remove ticket s.tickets;
      },
      ok r,
    )
    else (s, err stale)

pub dispatch : ℕ → Text → Text → ℕ → Store → Store × Result Navigation
unfolding collect dispatch_found ticketed
dispatch now ticket tab epoch s =
    let t = collect now s in dispatch_found ticket tab epoch (ticketed ticket t) t

pub complete_found : Option Navigation → Store → Store × Result (Unit {0})
unfolding remove_record
complete_found none s = (s, err not_running)
complete_found (some r) s =
    if is_dispatching r.state then (remove_record r s, ok tt) else (s, err not_running)

pub complete : Text → Store → Store × Result (Unit {0})
unfolding complete_found
complete id s = complete_found (lookup id s.pending) s

-- The loop of `invalidateTab` over the entries that were there when it began.
pub invalidate_over : Text → ℕ → Option Text → List (Text × Navigation) → Store → Store
unfolding cancel
invalidate_over tab epoch except [] s = s
invalidate_over tab epoch except ((id, r) ∷ es) s = invalidate_over tab epoch except es (
    if same r.tab_id tab && not (r.epoch == epoch) && not (same_option (some id) except)
    then (cancel id s).0
    else s)

pub invalidate_tab : Text → ℕ → Option Text → Store → Store
unfolding invalidate_over
invalidate_tab tab epoch except s = invalidate_over tab epoch except s.pending s

-- One call of the control socket. `capture` and `approve` come with the random text that they draw.
pub data Operation : Type 0 where
  capture_op : Text → Capture → Operation
  approve_op : Text → Text → Text → ℕ → Option Text → Operation
  dispatch_op : Text → Text → ℕ → Operation
  complete_op : Text → Operation
  cancel_op : Text → Operation
  invalidate_op : Text → ℕ → Option Text → Operation

pub step : (Text → Option Url) → Options → ℕ → Operation → Store → Store
unfolding capture approve dispatch complete cancel invalidate_tab
step parse o now (capture_op challenge c) s = (capture parse o now challenge c s).0
step parse o now (approve_op ticket challenge tab epoch source) s =
    (approve o now ticket challenge tab epoch source s).0
step parse o now (dispatch_op ticket tab epoch) s = (dispatch now ticket tab epoch s).0
step parse o now (complete_op id) s = (complete id s).0
step parse o now (cancel_op id) s = (cancel id s).0
step parse o now (invalidate_op tab epoch except) s = invalidate_tab tab epoch except s

-- A session: each operation with the time at which it comes.
pub run : (Text → Option Url) → Options → List (ℕ × Operation) → Store → Store
unfolding step
run parse o [] s = s
run parse o ((now, op) ∷ ops) s = run parse o ops (step parse o now op s)

abbrev pub empty : Store
empty = record { pending = []; tickets = []; bytes = 0 }
