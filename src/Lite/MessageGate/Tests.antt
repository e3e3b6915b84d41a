-- ===== src/Lite/MessageGate/Tests.antt =====
-- The gate over concrete arrivals, and the theorem there.
use vibetop.Base.{
  ℕ, ◌≡◌, refl, false, none, some, List, [], ◌∷◌, ◌++◌, codes, Text, same, lookup, put,
}
use vibetop.Lite.MessageGate.{Held, deliver, dispatch, look_up, Gate, Event, arrived, answered, run}
use vibetop.Lite.MessageGate.Order.{IsResting, Blocked, seen, arrivals, run-order}

abbrev fresh_gate : Gate
fresh_gate = record {
  origins = [];
  held = [];
  pending = [];
  delivering = false;
  settled = [];
  made = 0;
}

abbrev sender : Text
sender = codes "a.realm"

abbrev of_sender : ℕ → Held
of_sender n = record { physical = sender; message = n }

abbrev of_null : ℕ → Held
of_null n = record { physical = codes "null"; message = n }

abbrev traffic : List Event
traffic =
    arrived (codes "null") 1
    ∷ arrived sender 2
    ∷ arrived (codes "null") 3
    ∷ arrived sender 4
    ∷ answered 0 sender (some (codes "https://a.example"))
    ∷ arrived sender 5
    ∷ []

-- A message behind a held one waits, also from a sender that is known.
in_turn :
    (run traffic fresh_gate).1
    ≡ dispatch (of_null 1)
      ∷ look_up 0 sender
      ∷ deliver (of_sender 2)
      ∷ deliver (of_null 3)
      ∷ deliver (of_sender 4)
      ∷ dispatch (of_sender 5)
      ∷ []
unfolding run same lookup put
in_turn = refl

-- A lookup that fails delivers too, and a second answer of it changes nothing.
answered_twice :
    (run
      (arrived sender 2 ∷ answered 0 sender none ∷ arrived sender 6 ∷ answered 0 sender none ∷ [])
      fresh_gate).1
    ≡ look_up 0 sender ∷ deliver (of_sender 2) ∷ look_up 1 sender ∷ []
unfolding run same lookup
answered_twice = refl

run-order_example :
    IsResting (run traffic fresh_gate).0
    × (seen (run traffic fresh_gate).1 ++ (run traffic fresh_gate).0.held ≡ [] ++ arrivals traffic)
    × ((run traffic fresh_gate).0.pending ≡ []
        → seen (run traffic fresh_gate).1 ≡ [] ++ arrivals traffic)
unfolding Blocked
run-order_example = run-order traffic fresh_gate (record { idle = refl; blocked = tt })
