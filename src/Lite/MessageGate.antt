-- ===== src/Lite/MessageGate.antt =====
-- apps/everyday/browser-lite/proxy/message-gate.js: messages wait while the origin of their sender is looked
-- up. The map `origins` belongs to the page, which may add to it. A listener runs at a `deliver`; while
-- it runs, `hold` refuses whatever it is called with, so that a delivery changes nothing here, and what a
-- listener throws is only reported. A lookup answers as an event, with its number for the closure `done`.
pub mod Order
mod Tests
use vibetop.Base.{
  ℕ, ◌+◌, Bool, true, false, ◌&&◌, ◌||◌, not, Option, none, some, List, [], ◌∷◌, ◌++◌,
  if◌then◌else◌, mem, Text, same, lookup, put, codes,
}

-- A message is told by a number: the gate passes it on as it is.
pub record Held : Type 0 where
  pub physical : Text
  pub message : ℕ

pub data Action : Type 0 where
  deliver : Held → Action
  dispatch : Held → Action
  look_up : ℕ → Text → Action

pub record Gate : Type 0 where
  pub origins : List (Text × Text)
  pub held : List Held
  pub pending : List Text
  pub delivering : Bool
  pub settled : List ℕ
  pub made : ℕ

-- `pending.has`
unfoldable pub has : Text → List Text → Bool
has k [] = false
has k (x ∷ xs) = same x k || has k xs

-- `pending.delete`
pub delete : Text → List Text → List Text
delete k [] = []
delete k (x ∷ xs) = let rest = delete k xs in if same x k then rest else x ∷ rest

-- `origins.has`
pub knows : Option Text → Bool
knows none = false
knows (some _) = true

pub is_empty : List Held → Bool
is_empty [] = true
is_empty (_ ∷ _) = false

-- The loop of `drain` over the queue, whose flag is down after each delivery.
pub drain_queue : List Held → Gate → Gate × List Action
drain_queue [] s = (record s { held = [] }, [])
drain_queue (m ∷ ms) s =
    let (t, actions) = drain_queue ms (record s { delivering = false }) in
    if has m.physical s.pending then (record s { held = m ∷ ms }, []) else (t, deliver m ∷ actions)

pub drain : Gate → Gate × List Action
unfolding drain_queue
drain s = drain_queue s.held s

pub resolve : Text → Gate → Gate × List Action
unfolding has
resolve physical s = if has physical s.pending then (s, []) else (
  record s { pending = physical ∷ s.pending; made = s.made + 1 },
  look_up s.made physical ∷ [],
)

-- `done` of the lookup with the number.
pub done : ℕ → Text → Option Text → Gate → Gate × List Action
unfolding delete drain
done id physical origin s =
    if mem id s.settled
    then (s, [])
    else drain (record s {
      origins = learn origin;
      pending = delete physical s.pending;
      settled = id ∷ s.settled;
    })
  where
    learn : Option Text → List (Text × Text)
    learn none = s.origins
    learn (some o) = put physical o s.origins

-- Whether the message was held, beside the state and what has been done.
pub hold : Text → ℕ → Gate → Bool × (Gate × List Action)
unfolding knows is_empty drain resolve
hold physical message s =
    let known = same physical (codes "null") || knows (lookup physical s.origins) in
    let longer : Gate = record s {
      held = s.held ++ record { physical = physical; message = message } ∷ [];
    } in
    if s.delivering
    then (false, (s, []))
    else if known && is_empty s.held
    then (false, (s, []))
    else (true, (if known then drain longer else resolve physical longer))

pub data Event : Type 0 where
  arrived : Text → ℕ → Event
  answered : ℕ → Text → Option Text → Event
  learned : Text → Text → Event

-- A message that is not held goes on to its listeners at once.
pub step : Event → Gate → Gate × List Action
unfolding hold done
step (arrived physical message) s =
    let (was_held, (t, actions)) = hold physical message s in
    (
      t,
      if was_held
          then actions
          else dispatch (record { physical = physical; message = message }) ∷ [],
    )
step (answered id physical origin) s = done id physical origin s
step (learned physical origin) s = (record s { origins = put physical origin s.origins }, [])

pub run : List Event → Gate → Gate × List Action
unfolding step
run [] s = (s, [])
run (e ∷ es) s = let (t, actions) = step e s in let (u, more) = run es t in (u, actions ++ more)
