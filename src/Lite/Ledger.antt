-- ===== src/Lite/Ledger.antt =====
-- apps/everyday/browser-lite/proxy/control-ledger.cjs: one serialized command lane for each trusted
-- tab. The proxied browser is reached through two calls, `perform` and `expire`; the state keeps
-- them as a history, and what `perform` answers is a parameter that may depend on that history.
-- `now` is read once for each operation. A request is what the HTTP handler passes on: texts are
-- lists of character codes, and an absent member is `none`.
pub mod Steps
pub mod Retry
pub mod Evict
pub mod Size
mod Tests
use vibetop.Base.{
  ℕ, zero, suc, ◌+◌, Bool, true, false, ◌&&◌, ◌||◌, not, Option, none, some, List, [], ◌∷◌, ◌++◌,
  if◌then◌else◌, ◌==◌, ltb, leb, length, keep, map, Text, same, same_option, lookup, put, remove,
  ◌>>=◌,
}

-- An optional text as a JavaScript condition.
pub truthy : Option Text → Bool
truthy none = false
truthy (some []) = false
truthy (some (_ ∷ _)) = true

-- `a || b`
or_else : Option Text → Option Text → Option Text
unfolding truthy
or_else a b = if truthy a then a else b

pub record Body : Type 0 where
  pub tab_id : Option Text
  pub rest : Text

pub record Reply : Type 0 where
  pub tab_id : Option Text
  pub closed : Bool
  pub rest : Text

-- A call that reaches the browser.
pub data Call : Type 0 where
  perform : Text → Body → Call
  expire : Option Text → Call

-- What `perform` does: it returns a reply, or throws an error with a message.
pub data Answer : Type 0 where
  returned : Reply → Answer
  threw : Text → Answer

pub data Error : Type 0 where
  invalid_operation tab_expired session_mismatch operation_changed stale_operation : Error
  tab_changed empty_reduce : Error
  remote : Text → Error

pub data Outcome : Type 0 where
  value : Option Reply → Outcome
  error : Error → Outcome

pub record Lane : Type 0 where
  pub operation : ℕ
  pub tab_id : Option Text
  pub owner : Option Text
  pub fingerprint : Text
  pub error : Option Text
  pub result : Option Reply
  pub closed : Bool
  pub expires : ℕ

pub record Ledger : Type 0 where
  pub lanes : List (Text × Lane)
  pub calls : List Call

pub record Options : Type 0 where
  pub ttl : ℕ
  pub limit : ℕ

pub record Request : Type 0 where
  pub command : Text
  pub client_id : Text
  pub operation : ℕ
  pub body : Body

abbrev is_hex : ℕ → Bool
is_hex c = (leb b'a' c && leb c b'f') || (leb b'0' c && leb c b'9') || c == b'-'

abbrev all_hex : Text → Bool
all_hex [] = true
all_hex (c ∷ cs) = is_hex c && all_hex cs

-- /^[a-f0-9-]{36}$/, and `Number.isSafeInteger(operation) && operation >= 1`
pub is_valid : Request → Bool
is_valid r =
    length r.client_id == 36
    && all_hex r.client_id
    && leb 1 r.operation
    && leb r.operation 9007199254740991

pub expired : ℕ → List (Text × Lane) → List Call
expired now [] = []
expired now ((_, lane) ∷ m) =
    let rest = expired now m in if leb lane.expires now then expire lane.tab_id ∷ rest else rest

pub live : ℕ → List (Text × Lane) → List (Text × Lane)
live now lanes = keep (λ e. not (leb e.1.expires now)) lanes

pub collect : ℕ → Ledger → Ledger
unfolding expired live
collect now s = record { lanes = live now s.lanes; calls = s.calls ++ expired now s.lanes }

-- The entry with the smallest `expires`, the first of them: the `reduce` of `evict`.
pub oldest : Text × Lane → List (Text × Lane) → Text × Lane
oldest best [] = best
oldest best (e ∷ es) = oldest (if ltb e.1.expires best.1.expires then e else best) es

-- `none` is the exception of a `reduce` over no entries.
pub evict : List (Text × Lane) → Ledger → Option Ledger
unfolding oldest
evict [] s = none
evict (e ∷ es) s =
    let (id, lane) = oldest e es in
    some (record { lanes = remove id s.lanes; calls = s.calls ++ expire lane.tab_id ∷ [] })

pub evict_if : Bool → List (Text × Lane) → Ledger → Option Ledger
unfolding evict
evict_if true es s = evict es s
evict_if false es s = some s

abbrev pub max_lanes : ℕ
max_lanes = 4096

abbrev pub new_lane : Request → Option Text → Lane
new_lane r owner = record {
  operation = 0;
  tab_id = r.body.tab_id;
  owner = owner;
  fingerprint = [];
  error = none;
  result = none;
  closed = false;
  expires = 0;
}

-- The lane of a new client: room is made at the open-lane limit and at the total limit.
pub open_lane : Options → Request → Option Text → Ledger → Option Ledger
unfolding evict_if
open_lane o r owner s = do
  let open_lanes = keep (λ e. not e.1.closed) s.lanes
  s₁ ← evict_if (leb o.limit (length open_lanes)) open_lanes s
  s₂ ← evict_if (leb max_lanes (length s₁.lanes)) s₁.lanes s₁
  some (record s₂ { lanes = put r.client_id (new_lane r owner) s₂.lanes })

-- What the cached outcome of a lane gives to a retry.
pub cached : Lane → Outcome
unfolding truthy
cached lane = elim lane.error [
  | none ↦ value lane.result
  | some m ↦ if truthy (some m) then error (remote m) else value lane.result
]

-- The outcome of `perform`, written into the lane.
pub settle : Lane → Answer → Lane × Outcome
unfolding or_else
settle lane (returned reply) = (
  record lane {
    result = some reply;
    tab_id = or_else reply.tab_id lane.tab_id;
    closed = reply.closed;
  },
  value (some reply),
)
settle lane (threw m) = (record lane { error = some m }, error (remote m))

module _ (answer : List Call → Text → Body → Answer) (digest : Text → Body → Text) where
  -- The lane is there: retry, refuse or execute.
  pub run_lane : ℕ → Options → Request → Option Text → Lane → Ledger → Ledger × Outcome
  unfolding cached settle truthy same_option
  run_lane now o r owner lane s =
      let print = digest r.command r.body in
      let fresh = record lane { expires = now + o.ttl } in
      let kept = record s { lanes = put r.client_id fresh s.lanes } in
      let started = record fresh {
        operation = r.operation;
        fingerprint = print;
        error = none;
        result = none;
      } in
      let (done, out) = settle started (answer s.calls r.command r.body) in
      if not (same_option lane.owner owner)
      then (s, error session_mismatch)
      else if r.operation == lane.operation
      then (
        kept,
        if not (same print lane.fingerprint) then error operation_changed else cached lane,
      )
      else if not (r.operation == lane.operation + 1)
      then (kept, error stale_operation)
      else if truthy lane.tab_id && not (same_option r.body.tab_id lane.tab_id)
      then (kept, error tab_changed)
      else (
        record {
          lanes = put r.client_id done s.lanes;
          calls = s.calls ++ perform r.command r.body ∷ [];
        },
        out,
      )

  pub run_opened : ℕ → Options → Request → Option Text → Option Ledger → Ledger → Ledger × Outcome
  unfolding run_lane
  run_opened now o r owner none s = (s, error empty_reduce)
  run_opened now o r owner (some t) s = run_lane now o r owner (new_lane r owner) t

  pub run_found : ℕ → Options → Request → Option Text → Option Lane → Ledger → Ledger × Outcome
  unfolding run_opened run_lane open_lane
  run_found now o r owner (some lane) s = run_lane now o r owner lane s
  run_found now o r owner none s =
      if r.operation == 1
      then run_opened now o r owner (open_lane o r owner s) s
      else (s, error tab_expired)

  pub run : ℕ → Options → Request → Option Text → Ledger → Ledger × Outcome
  unfolding run_found collect is_valid
  run now o r owner s =
      let t = collect now s in
      if is_valid r
      then run_found now o r owner (lookup r.client_id t.lanes) t
      else (t, error invalid_operation)

touch_found : ℕ → Options → Text → Option Text → Option Lane → Ledger → Ledger × Option Error
unfolding same_option
touch_found now o id owner none s = (s, some tab_expired)
touch_found now o id owner (some lane) s =
    if same_option lane.owner owner
    then (record s { lanes = put id (record lane { expires = now + o.ttl }) s.lanes }, none)
    else (s, some session_mismatch)

pub touch : ℕ → Options → Text → Option Text → Ledger → Ledger × Option Error
unfolding touch_found collect
touch now o id owner s = let t = collect now s in touch_found now o id owner (lookup id t.lanes) t

pub owned : Option Text → List (Text × Lane) → List Call
unfolding same_option
owned owner [] = []
owned owner ((_, lane) ∷ m) =
    let rest = owned owner m in
    if same_option lane.owner owner then expire lane.tab_id ∷ rest else rest

pub revoke : Option Text → Ledger → Ledger
unfolding owned
revoke owner s = record {
  lanes = keep (λ e. not (same_option e.1.owner owner)) s.lanes;
  calls = s.calls ++ owned owner s.lanes;
}
