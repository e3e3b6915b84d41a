-- ===== src/Term/KbdInput.antt =====
-- apps/everyday/terminal/lib/kbd-input.js: the forwarder from the phone's text overlay to the PTY.
-- A text is the list of its code points, as `Array.from` gives it. What `send` receives is the list
-- of code points that a handler returns beside the new state. The timer is the environment: `fire`
-- is the call of the armed callback, and the field `timer` holds its value and its delay.
pub mod Line
pub mod Mirror
pub mod Compose
mod Tests
use vibetop.Base.{
  ℕ, zero, suc, ◌+◌, ◌-◌, Bool, true, false, ◌&&◌, ◌||◌, not, Option, none, some, List, [], ◌∷◌,
  ◌++◌, if◌then◌else◌, ◌==◌, length, drop, replicate,
}

abbrev pub del_code : ℕ
del_code = 127

abbrev pub cr_code : ℕ
cr_code = 13

abbrev tab_code : ℕ
tab_code = 9

pub record Forwarder : Type 0 where
  pub last_sent : List ℕ
  pub composing : Bool
  pub timer : Option (List ℕ × ℕ)

-- The state that `create` starts with.
abbrev pub created : Forwarder
created = record { last_sent = []; composing = false; timer = none }

abbrev pub is_empty : List ℕ → Bool
is_empty [] = true
is_empty (_ ∷ _) = false

-- `while (i < min && va[i] === la[i]) i++`
pub common : List ℕ → List ℕ → ℕ
common [] la = 0
common (_ ∷ _) [] = 0
common (v ∷ va) (l ∷ la) = let rest = common va la in if v == l then suc rest else 0

-- What `diffSend` sends: a DEL for each code point of the old tail, then the new tail.
pub delta : List ℕ → List ℕ → List ℕ
unfolding common
delta va la = let i = common va la in replicate (length la - i) del_code ++ drop i va

diff_send : Forwarder → List ℕ → Forwarder × List ℕ
unfolding delta
diff_send s v = (record s { last_sent = v }, delta v s.last_sent)

pub cancel : Forwarder → Forwarder
cancel s = record s { timer = none }

pub flush : Forwarder → List ℕ → Forwarder × List ℕ
unfolding diff_send
flush s v =
    let t = record s { timer = none } in
    if is_empty v && not (is_empty s.last_sent) && s.composing then (t, []) else diff_send t v

sched : Forwarder → List ℕ → ℕ → Forwarder
unfolding cancel
sched s v ms = record (cancel s) { timer = some (v, ms) }

pub data Event : Type 0 where
  input : List ℕ → Bool → Event
  composition_start : Event
  composition_end : List ℕ → Event
  enter : List ℕ → Event
  tab backspace_empty reset fire : Event

fire_timer : Option (List ℕ × ℕ) → Forwarder → Forwarder × List ℕ
unfolding flush
fire_timer none s = (s, [])
fire_timer (some (v, _)) s = flush s v

-- One handler call. `safety` is `composeSafetyMs`.
pub step : ℕ → Forwarder → Event → Forwarder × List ℕ
unfolding fire_timer flush sched cancel
step safety s (input v is_composing) =
    if s.composing || is_composing then (sched s v safety, []) else flush (cancel s) v
step safety s composition_start = (cancel (record s { composing = true }), [])
step safety s (composition_end v) = (sched (record s { composing = false }) v 40, [])
step safety s (enter v) =
    let (t, sent) = flush (cancel s) v in (record t { last_sent = [] }, sent ++ cr_code ∷ [])
step safety s tab = (s, tab_code ∷ [])
step safety s backspace_empty = (s, del_code ∷ [])
step safety s reset = (record (cancel s) { last_sent = []; composing = false }, [])
step safety s fire = fire_timer s.timer s

-- A session: the handlers run one after the other, and what they send is appended.
pub run : ℕ → Forwarder → List Event → Forwarder × List ℕ
run safety s [] = (s, [])
run safety s (e ∷ es) =
    let (t, sent) = step safety s e in let (u, more) = run safety t es in (u, sent ++ more)
