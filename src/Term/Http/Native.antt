-- ===== src/Term/Http/Native.antt =====
-- apps/everyday/terminal/terminal-http.js: the life of a socket as the page sees it: the native socket, its handshake and
-- timer, and the fallback to requests. An event is what runs without a pause; a message is a number. The log of a
-- fallback is left out.
use vibetop.Base.{ℕ, Bool, true, false, ◌||◌, ◌&&◌, not, List, [], ◌∷◌, ◌++◌, if◌then◌else◌}
use vibetop.Term.Http.{ReadyState, connecting, opened, closed}

-- What the page is told: the socket opens, and its messages come, by the native socket or by requests.
pub data Emit : Type 0 where
  opens : (by_http : Bool) → Emit
  message : (by_http : Bool) → ℕ → Emit
  errs closes : Emit

pub record Life : Type 0 where
  pub state : ReadyState
  pub http : Bool
  pub asked : Bool

abbrev pub born : Life
born = record { state = connecting; http = false; asked = false }

pub data Event : Type 0 where
  timer native_open native_error native_close : Event
  native_message : ℕ → Event
  fallback_opened fallback_failed : Event
  frame : ℕ → Event
  poll_closed request_failed page_closes too_much : Event

-- `_finish`, `_fail` and `close`
pub finish : Life → Life × List Emit
finish s = elim s.state [
  | closed ↦ (s, [])
  | connecting ↦ (record s { state = closed }, closes ∷ [])
  | opened ↦ (record s { state = closed }, closes ∷ [])
]

pub fail : Life → Life × List Emit
unfolding finish
fail s = elim s.state [
  | closed ↦ (s, [])
  | connecting ↦ let (t, told) = finish s in (t, errs ∷ told)
  | opened ↦ let (t, told) = finish s in (t, errs ∷ told)
]

-- `_fallback`, up to the answer of its request.
pub fall_back : Life → Life × List Emit
fall_back s = elim s.state [
  | connecting ↦ if s.http then (s, []) else (record s { http = true; asked = true }, [])
  | opened ↦ (s, [])
  | closed ↦ (s, [])
]

-- Native messages and errors, the answers of the requests, and what the page does; `too_much` is a `send` beyond the limits.
pub step : Event → Life → Life × List Emit
unfolding finish fail fall_back
step timer s = fall_back s
step native_open s = elim s.state [
  | connecting ↦ if s.http then (s, []) else (record s { state = opened }, opens false ∷ [])
  | opened ↦ (s, [])
  | closed ↦ (s, [])
]
step (native_message n) s = elim s.state [
  | connecting ↦ (s, [])
  | opened ↦ if s.http then (s, []) else (s, message false n ∷ [])
  | closed ↦ (s, [])
]
step native_error s =
    if s.http
    then (s, [])
    else elim s.state [ connecting ↦ fall_back s | opened ↦ (s, errs ∷ []) | closed ↦ (s, []) ]
step native_close s =
    if s.http
    then (s, [])
    else elim s.state [ connecting ↦ fall_back s | opened ↦ finish s | closed ↦ (s, []) ]
step fallback_opened s =
    if s.asked
    then elim s.state [
      | connecting ↦ (record s { state = opened; asked = false }, opens true ∷ [])
      | opened ↦ (record s { asked = false }, opens true ∷ [])
      | closed ↦ (record s { asked = false }, [])
    ]
    else (s, [])
step fallback_failed s = if s.asked then fail (record s { asked = false }) else (s, [])
step (frame n) s =
    if s.http
    then elim s.state [
      | opened ↦ (s, message true n ∷ [])
      | connecting ↦ (s, [])
      | closed ↦ (s, [])
    ]
    else (s, [])
step poll_closed s =
    if s.http
    then elim s.state [ opened ↦ finish s | connecting ↦ (s, []) | closed ↦ (s, []) ]
    else (s, [])
step request_failed s =
    if s.http
    then elim s.state [ opened ↦ fail s | connecting ↦ (s, []) | closed ↦ (s, []) ]
    else (s, [])
step page_closes s = finish s
step too_much s =
    if s.http
    then elim s.state [ opened ↦ fail s | connecting ↦ (s, []) | closed ↦ (s, []) ]
    else (s, [])

unfoldable pub run : List Event → Life → Life × List Emit
unfolding step
run [] s = (s, [])
run (e ∷ es) s = let (t, told) = step e s in let (u, later) = run es t in (u, told ++ later)

-- What a socket may tell: it opens once, by one of both ways, and messages of that way and errors follow; or it fails
-- before; at the end it closes, once, and says no more.
pub data Phase : Type 0 where
  waiting failing ended broken : Phase
  live : (by_http : Bool) → Phase

abbrev pub same_way : Bool → Bool → Bool
same_way true b = b
same_way false b = not b

abbrev pub next : Phase → Emit → Phase
next waiting (opens h) = live h
next waiting errs = failing
next waiting closes = ended
next waiting (message h n) = broken
next (live h) (opens k) = broken
next (live h) errs = live h
next (live h) closes = ended
next (live h) (message k n) = if same_way h k then live h else broken
next failing (opens h) = broken
next failing errs = broken
next failing (message h n) = broken
next failing closes = ended
next ended e = broken
next broken e = broken

abbrev pub tells : Phase → List Emit → Phase
tells p [] = p
tells p (e ∷ es) = tells (next p e) es

-- The phase of a socket between events.
abbrev pub phase_of : Life → Phase
phase_of s = elim s.state [ connecting ↦ waiting | opened ↦ live s.http | closed ↦ ended ]

-- A request for a fallback is out only while the native socket is given up and the socket is not open.
abbrev pub sound : Life → Bool
sound s =
    not s.asked || (s.http && elim s.state [ opened ↦ false | connecting ↦ true | closed ↦ true ])
