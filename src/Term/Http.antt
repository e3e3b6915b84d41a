-- ===== src/Term/Http.antt =====
-- apps/everyday/terminal/terminal-http.js: the terminal's transport over plain requests. A socket is
-- its state, the requests that it has made, the one that it waits for, and the messages delivered. One
-- event is what runs without a pause: a call of `send`, the microtask behind a resize, the success or
-- the failure of the awaited request, or a response of the poll. Retries are inside a request.
pub mod Batch
pub mod Turn
pub mod Happen
pub mod Stream
pub mod Deliver
pub mod Native
mod Tests
use vibetop.Base.{
  ℕ, zero, suc, ◌+◌, ◌-◌, Bool, true, false, ◌&&◌, ◌||◌, not, Option, none, some, List, [], ◌∷◌,
  ◌++◌, if◌then◌else◌, ◌==◌, ltb, leb, length, drop, Text,
}

pub record Frame : Type 0 where
  pub bytes : Text
  pub binary : Bool

pub data ReadyState : Type 0 where
  connecting opened closed : ReadyState

-- The request `send`: several frames, or one frame of joined input; with the number of its first frame.
pub record Request : Type 0 where
  pub seq : ℕ
  pub frames : List Frame
  pub size : ℕ

pub record Socket : Type 0 where
  pub state : ReadyState
  pub http : Bool
  pub seq : ℕ
  pub after : ℕ
  pub queue : List Frame
  pub buffered : ℕ
  pub requests : List Request
  pub awaited : Option Request
  pub delivered : List Frame
  pub native_sent : List Frame

abbrev pub is_open : Socket → Bool
is_open s = elim s.state [ opened ↦ true | connecting ↦ false | closed ↦ false ]

abbrev pub is_closed : Socket → Bool
is_closed s = elim s.state [ closed ↦ true | connecting ↦ false | opened ↦ false ]

abbrev pub input_code : ℕ
input_code = 48

abbrev pub resize_code : ℕ
resize_code = 49

-- `bytes[0] === code`
abbrev pub starts : ℕ → Text → Bool
starts code [] = false
starts code (c ∷ cs) = c == code

abbrev pub same_kind : Bool → Bool → Bool
same_kind true b = b
same_kind false b = not b

abbrev pub max_frame : ℕ
max_frame = 262144

abbrev pub max_buffered : ℕ
max_buffered = 1048576

-- The resizes at the head of the queue, at most `room` of them, and what is left.
pub take_resizes : (room : ℕ) → List Frame → List Frame × List Frame
take_resizes zero queue = ([], queue)
take_resizes (suc room) [] = ([], [])
take_resizes (suc room) (f ∷ queue) =
    let (more, rest) = take_resizes room queue in
    if starts resize_code f.bytes then (f ∷ more, rest) else ([], f ∷ queue)

-- The input at the head of the queue that can be joined to a frame of `size` bytes: its bytes without
-- the leading code, the size, and what is left.
pub take_inputs : (binary : Bool) → (size : ℕ) → List Frame → Text × ℕ × List Frame
take_inputs binary size [] = ([], size, [])
take_inputs binary size (f ∷ queue) =
    let (more, total, rest) = take_inputs binary (size + length f.bytes) queue in
    if same_kind binary f.binary
      && starts input_code f.bytes
      && leb (size + length f.bytes) max_frame
    then (drop 1 f.bytes ++ more, total, rest)
    else ([], size, f ∷ queue)

-- The sizes of frames.
pub size_of : List Frame → ℕ
size_of [] = 0
size_of (f ∷ fs) = length f.bytes + size_of fs

-- A frame on its own, with the input that can be joined to it.
pub joined : (seq : ℕ) → Frame → List Frame → Request × List Frame
unfolding take_inputs
joined seq first queue =
    let (more, total, rest) = take_inputs first.binary (length first.bytes) queue in
    if starts input_code first.bytes
    then (
      record {
        seq = seq;
        frames = record { bytes = first.bytes ++ more; binary = first.binary } ∷ [];
        size = total;
      },
      rest,
    )
    else (record { seq = seq; frames = first ∷ []; size = length first.bytes }, queue)

-- What leaves next from a queue that begins with `first`.
pub next_request : (seq : ℕ) → Frame → List Frame → Request × List Frame
unfolding take_resizes joined size_of
next_request seq first queue =
    let (more, rest) = take_resizes 15 queue in
    let single = joined seq first queue in
    if starts resize_code first.bytes && leb 1 (length more)
    then (record { seq = seq; frames = first ∷ more; size = size_of (first ∷ more) }, rest)
    else single

-- A turn of the loop of `_flush`, up to the request.
pub pump_queue : List Frame → Socket → Socket
unfolding next_request
pump_queue [] s = s
pump_queue (first ∷ queue) s =
    let (r, rest) = next_request (s.seq + 1) first queue in
    record s {
      seq = s.seq + length r.frames;
      queue = rest;
      requests = s.requests ++ r ∷ [];
      awaited = some r;
    }

abbrev pub is_sending : Socket → Bool
is_sending s = elim s.awaited [ none ↦ false | some _ ↦ true ]

-- `_flush`
pub flush : Socket → Socket
unfolding pump_queue
flush s = if is_sending s || not (is_open s) then s else pump_queue s.queue s

-- `_finish`
pub finish : Socket → Socket
finish s = if is_closed s then s else record s { state = closed; queue = []; buffered = 0 }

-- `_fail`, and `close` with any code.
pub fail : Socket → Socket
unfolding finish
fail s = finish s

abbrev pub push : Frame → Socket → Socket
push f s = record s { queue = s.queue ++ f ∷ []; buffered = s.buffered + length f.bytes }

-- A call of `send` on a socket that is open over requests.
pub send_http : Frame → Socket → Socket
unfolding fail flush
send_http f s =
    if ltb max_frame (length f.bytes) || ltb max_buffered (s.buffered + length f.bytes)
    then fail s
    else if starts resize_code f.bytes && not (is_sending s)
    then push f s
    else flush (push f s)

pub send_open : Frame → Socket → Socket
unfolding send_http
send_open f s = if s.http then send_http f s else record s { native_sent = s.native_sent ++ f ∷ [] }

-- A call of `send`; `none` is the exception of a socket that still connects.
pub send_in : ReadyState → Frame → Socket → Option Socket
unfolding send_open
send_in connecting f s = none
send_in closed f s = some s
send_in opened f s = some (send_open f s)

pub send : Frame → Socket → Option Socket
unfolding send_in
send f s = send_in s.state f s

-- The awaited request has succeeded: the loop goes on.
pub answered_with : Option Request → Socket → Socket
unfolding flush
answered_with none s = s
answered_with (some r) s =
    let idle = record s { awaited = none } in
    if is_open s then flush (record idle { buffered = s.buffered - r.size }) else idle

pub answered : Socket → Socket
unfolding answered_with
answered s = answered_with s.awaited s

-- The awaited request has failed for good.
pub failed : Socket → Socket
unfolding fail
failed s = fail (record s { awaited = none })

-- A frame from the server, with its number.
pub record Numbered : Type 0 where
  pub seq : ℕ
  pub frame : Frame

pub record Response : Type 0 where
  pub frames : List Numbered
  pub is_last : Bool

-- The loop of `_deliver`.
pub deliver_frames : List Numbered → Socket → Socket
deliver_frames [] s = s
deliver_frames (f ∷ fs) s = deliver_frames fs (
    if leb f.seq s.after
    then s
    else record s { delivered = s.delivered ++ f.frame ∷ []; after = f.seq })

pub deliver : Response → Socket → Socket
unfolding deliver_frames finish
deliver r s =
    let t = deliver_frames r.frames s in
    if is_open s then (if r.is_last then finish t else t) else s

-- What happens to a socket.
pub data Event : Type 0 where
  send_event : Frame → Event
  microtask answer failure close_event : Event
  response : Response → Event

abbrev pub or_same : Option Socket → Socket → Socket
or_same none s = s
or_same (some t) s = t

pub step : Event → Socket → Socket
unfolding send flush answered failed fail deliver
step (send_event f) s = or_same (send f s) s
step microtask s = flush s
step answer s = answered s
step failure s = failed s
step close_event s = finish s
step (response r) s = deliver r s

pub run : List Event → Socket → Socket
unfolding step
run [] s = s
run (e ∷ es) s = run es (step e s)

-- The frames of the calls of `send`.
pub sent : List Event → List Frame
sent [] = []
sent (send_event f ∷ es) = f ∷ sent es
sent (_ ∷ es) = sent es
