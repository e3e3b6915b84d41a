-- ===== src/Term/Resume/Receive.antt =====
-- `receive`: packets of output, their envelopes, and the input that waits for the first of them.
pub mod Fuel
pub mod Spell
pub mod Packets
pub mod Typed
mod Tests
use vibetop.Base.{
  ℕ, zero, suc, ◌+◌, Bool, true, false, ◌&&◌, ◌||◌, not, Option, none, some, List, [], ◌∷◌, ◌++◌,
  if◌then◌else◌, ltb, ◌==◌, length, Text,
}
use vibetop.Term.Resume.{
  Frame, Parsed, malformed, null_value, parsed, Cache, Action, show, allow_input, changed, close,
  request, Session, Receiver, Turn, plain, unfinished, broken, envelope, scan, output,
}
use vibetop.Term.Resume.Store.{valid, remember, restored}

-- The state after an envelope, what it has caused, and whether it has thrown.
pub record Handled : Type 0 where
  pub session : Session
  pub actions : List Action
  pub threw : Bool

-- The reset of the terminal, `ESC c`.
abbrev pub clear_screen : Text
clear_screen = 27 ∷ 99 ∷ []

abbrev pub then_do : List Action → Option (Receiver × List Action) → Option (Receiver × List Action)
then_do before none = none
then_do before (some (r, actions)) = some (r, before ++ actions)

module _ (parse : Text → Parsed) (atob : Text → Option Text) where
  -- The text of a frame after the screen has been prepared.
  pub show_frame : Frame → Text → List Action → Session → Handled
  unfolding remember
  show_frame frame payload before s = elim (atob payload) [
    | none ↦ record { session = s; actions = before; threw = true }
    | some chunk ↦
        let (kept, saving) = remember frame payload chunk s.cache in
        record {
          session = record s { cache = kept };
          actions = before ++ output chunk ++ saving;
          threw = false;
        }
  ]

  -- The first frame rebuilds the screen and releases the input.
  pub first_frame : Frame → Text → Session → Handled
  unfolding restored show_frame
  first_frame frame payload s = elim (if frame.reset then some [] else restored atob s.cache) [
    | none ↦ record { session = s; actions = []; threw = true }
    | some old ↦
        show_frame frame payload (show (clear_screen ++ old) ∷ allow_input ∷ [])
          (record s { first = false })
  ]

  pub handle_payload : Frame → Option Text → Session → Handled
  unfolding first_frame show_frame
  handle_payload frame none s = record { session = s; actions = []; threw = false }
  handle_payload frame (some payload) s =
      if not s.negotiated
      then record { session = s; actions = []; threw = false }
      else if s.first
      then first_frame frame payload s
      else show_frame frame payload (if frame.reset then show clear_screen ∷ [] else []) s

  pub handle_frame : Frame → Session → Handled
  unfolding valid handle_payload
  handle_frame frame s =
      if frame.ready
      then record {
        session = record s { negotiated = true };
        actions = request (valid s.cache) ∷ [];
        threw = false;
      }
      else handle_payload frame frame.payload s

  -- An envelope with its body.
  pub handle : Text → Session → Handled
  unfolding handle_frame
  handle body s = elim (parse body) [
    | malformed ↦ record { session = s; actions = []; threw = false }
    | null_value ↦ record { session = s; actions = []; threw = true }
    | parsed frame ↦ handle_frame frame s
  ]

  -- What follows an envelope: the rest of the loop, or what the end of the queue does about an error.
  pub after_envelope :
      (Text → Session → Option (Receiver × List Action))
      → Text
      → Handled
      → Option (Receiver × List Action)
  after_envelope rest after h = elim h.threw [
    | true ↦ some (
      record { pending = after; session = record h.session { cache = none } },
      h.actions ++ changed ∷ close ∷ [],
    )
    | false ↦ then_do h.actions (rest after h.session)
  ]

  -- A turn of the loop, with the rest of the loop.
  pub take_turn :
      (Text → Session → Option (Receiver × List Action))
      → Session
      → Turn
      → Option (Receiver × List Action)
  unfolding handle after_envelope
  take_turn rest s (plain before kept) = some (
    record { pending = kept; session = s },
    (if length before == 0 || s.negotiated then [] else allow_input ∷ []) ++ output before,
  )
  take_turn rest s (unfinished before left) =
      some (record { pending = left; session = s }, output before)
  take_turn rest s (broken before left) = then_do (output before) (rest left s)
  take_turn rest s (envelope before body after) =
      then_do (output before) (after_envelope rest after (handle body s))

  -- The loop of `receive`; nothing where the fuel runs out.
  pub loop : ℕ → Text → Session → Option (Receiver × List Action)
  unfolding scan take_turn
  loop zero pending s = none
  loop (suc fuel) pending s = take_turn (loop fuel) s (scan pending)

  -- A packet that arrives while the socket is the current one, or after another has taken its place.
  pub receive : Bool → Text → Receiver → Option (Receiver × List Action)
  unfolding loop
  receive current packet r =
      let all = r.pending ++ packet in
      if current then loop (suc (length all)) all r.session else some (r, [])

-- The input of a socket: what waits, and what has been sent to the server.
pub record Input : Type 0 where
  pub is_ready : Bool
  pub waiting : List Text
  pub waiting_size : ℕ
  pub closed : Bool
  pub sent : List Text

abbrev pub is_typed : Text → Bool
is_typed [] = false
is_typed (x ∷ xs) = x == 48

-- `send`, replaced.
pub send : Text → Input → Input
send d s =
    let size = s.waiting_size + length d in
    if is_typed d && not s.is_ready
    then (if ltb 65536 size
        then record s { waiting = []; waiting_size = size; closed = true }
        else record s { waiting = s.waiting ++ d ∷ []; waiting_size = size })
    else record s { sent = s.sent ++ d ∷ [] }

-- `allowInput`
pub release_input : Input → Input
release_input s = record s { is_ready = true; waiting = []; sent = s.sent ++ s.waiting }
