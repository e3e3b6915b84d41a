-- ===== src/Term/Watch.antt =====
-- apps/everyday/terminal/terminal-connection.js: the watch over the terminal's connection. Its state is
-- that of the script, with the count of retries that the session storage keeps across loads of the
-- page. What it does to the page is a list of actions. The state of the page and of the socket at
-- the time of a call is an argument: the clock, the foreground, the network, the state of the
-- socket, whether the terminal's controller owns the socket, and whether the storage takes a value.
pub mod Quiet
pub mod Budget
pub mod Limit
mod Tests
use vibetop.Base.{
  ℕ, zero, suc, ◌+◌, ◌-◌, min, max, Bool, true, false, ◌&&◌, ◌||◌, not, Option, none, some, List,
  [], ◌∷◌, ◌++◌, if◌then◌else◌, ◌==◌, ltb, leb,
}

pub data Phase : Type 0 where
  startup connecting awaiting_output errored closed reconnecting : Phase

pub data Message : Type 0 where
  waiting_for_network connecting_to_terminal failed_retry stalled failed : Message

pub data Cause : Type 0 where
  retry_limit resume_closed_cause clean_close closed_reconnect timeout : Cause
  inplace_reconnect recovered socket_close socket_error : Cause

pub data Action : Type 0 where
  show : Message → Action
  log : Cause → Action
  dispose refresh_token connect reload close_previous hide_panel : Action

pub record Watch : Type 0 where
  pub socket : Option ℕ
  pub ready : Bool
  pub stopped : Bool
  pub exhausted : Bool
  pub close_code : Option ℕ
  pub closed_at : ℕ
  pub resume_closed : Bool
  pub was_offline : Bool
  pub since : ℕ
  pub phase : Phase
  pub retries : ℕ
  pub hidden_at : Option ℕ
  pub foreground : Bool
  pub stored : ℕ

pub record Env : Type 0 where
  pub now : ℕ
  pub hidden : Bool
  pub foreground : Bool
  pub online : Bool
  pub socket_closed : Bool
  pub owned : Bool
  pub disposable : Bool
  pub storage : Bool

abbrev pub is_closed : Phase → Bool
is_closed closed = true
is_closed _ = false

abbrev pub is_reconnecting : Phase → Bool
is_reconnecting reconnecting = true
is_reconnecting _ = false

-- Seconds since the foreground was left do not count.
pub wake : Env → Watch → Watch
wake e s = if s.foreground then s else record s { foreground = true; since = e.now }

-- A socket can be closed before its event arrives.
pub notice_closed : Env → Watch → Watch
notice_closed e s =
    if e.socket_closed && not (is_closed s.phase) && not (is_reconnecting s.phase)
    then record s {
      since = if s.ready then e.now else s.since;
      ready = false;
      phase = closed;
      closed_at = e.now;
    }
    else s

pub back_online : Env → Watch → Watch
back_online e s = if s.was_offline then record s { was_offline = false; since = e.now } else s

abbrev is_clean : Option ℕ → Bool
is_clean none = false
is_clean (some code) = code == 1000 || code == 1005

pub retry_delay : ℕ → ℕ
retry_delay zero = 0
retry_delay (suc zero) = 1000
retry_delay (suc (suc n)) = 4000

cause_of : Watch → Cause
cause_of s =
    if s.resume_closed
    then resume_closed_cause
    else if is_closed s.phase && is_clean s.close_code
    then clean_close
    else if is_closed s.phase
    then closed_reconnect
    else timeout

-- Recovery in place, by the terminal's own controller.
pub reconnect : Env → Watch → Watch × List Action
unfolding cause_of
reconnect e s =
    if e.storage
    then (
      record s {
        stored = s.retries + 1;
        retries = s.retries + 1;
        since = e.now;
        phase = reconnecting;
        resume_closed = false;
      },
      show stalled ∷ log (cause_of s) ∷ dispose ∷ log inplace_reconnect ∷ refresh_token ∷ [],
    )
    else (record s { stopped = true }, show stalled ∷ log (cause_of s) ∷ dispose ∷ show failed ∷ [])

-- Recovery by loading the page again.
pub reload_page : Env → Watch → Watch × List Action
unfolding cause_of
reload_page e s =
    if e.storage
    then (
      record s { stopped = true; stored = s.retries + 1 },
      show stalled ∷ log (cause_of s) ∷ reload ∷ [],
    )
    else (record s { stopped = true }, show stalled ∷ log (cause_of s) ∷ show failed ∷ [])

pub give_up : Env → Watch → Watch × List Action
give_up e s = (
  record s { exhausted = true },
  (if e.disposable then dispose ∷ [] else []) ++ show failed_retry ∷ log retry_limit ∷ [],
)

-- The part of `tick` that decides on a recovery.
pub recover : Env → Watch → Watch × List Action
unfolding retry_delay reconnect reload_page give_up
recover e s =
    let dead = is_closed s.phase in
    let elapsed = e.now - s.since in
    if dead && ltb s.retries 3 && ltb (e.now - s.closed_at) (retry_delay s.retries)
    then (s, [])
    else if not dead && ltb elapsed 3000
    then (s, [])
    else if not dead && ltb elapsed 45000
    then (s, show connecting_to_terminal ∷ [])
    else if leb 3 s.retries
    then give_up e s
    else if dead && e.owned
    then reconnect e s
    else reload_page e s

-- `tick` in the foreground, unless it has stopped or given up.
pub watch_socket : Env → Watch → Watch × List Action
unfolding notice_closed back_online recover
watch_socket e s =
    let t = notice_closed e s in
    if t.ready
    then (t, [])
    else if e.online
    then recover e (back_online e t)
    else (record t { was_offline = true }, show waiting_for_network ∷ [])

pub tick : Env → Watch → Watch × List Action
unfolding wake watch_socket
tick e s =
    let t = wake e s in
    if not e.foreground
    then (record s { foreground = false }, [])
    else if s.stopped || s.exhausted
    then (t, [])
    else watch_socket e t

-- The answer to `refresh_token`.
pub token : (fetched : Bool) → Watch → Watch × List Action
token true s =
    if not s.stopped && not s.exhausted && is_reconnecting s.phase
    then (s, connect ∷ [])
    else (s, [])
token false s = (s, log socket_error ∷ [])

abbrev pub is_current : ℕ → Watch → Bool
is_current id s = elim s.socket [ none ↦ false | some j ↦ j == id ]

-- A new socket; `live` says whether the one before was connecting or open.
pub new_socket : (id : ℕ) → (live disposable : Bool) → Watch → Watch × List Action
new_socket id live disposable s = (
  record s {
    socket = some id;
    close_code = none;
    resume_closed = false;
    ready = false;
    phase = connecting;
  },
  if live then close_previous ∷ (if disposable then dispose ∷ [] else []) else [],
)

pub socket_opened : ℕ → Watch → Watch × List Action
socket_opened id s = (if is_current id s then record s { phase = awaiting_output } else s, [])

-- A message; `output` says whether it is output of the shell.
pub socket_message : ℕ → (output : Bool) → Watch → Watch × List Action
socket_message id output s =
    if not (is_current id s) || s.ready || s.stopped || not output then (s, []) else (
      record s { ready = true; exhausted = false; retries = 0; stored = 0 },
      hide_panel ∷ (if leb 1 s.retries then log recovered ∷ [] else []),
    )

pub socket_ended : Env → ℕ → (code : ℕ) → Watch → Watch × List Action
unfolding tick
socket_ended e id code s =
    let t = record s {
      since = if s.ready then e.now else s.since;
      ready = false;
      phase = closed;
      close_code = some code;
      closed_at = e.now;
    } in
    let (u, actions) = tick e t in
    if not (is_current id s) || s.stopped then (s, []) else (u, log socket_close ∷ actions)

pub socket_failed : ℕ → Watch → Watch × List Action
socket_failed id s = (if is_current id s then record s { phase = errored } else s, [])

-- The time that the page was hidden does not count.
pub unhide : Env → Option ℕ → Watch → Watch
unhide e none s = s
unhide e (some at) s = record s { since = s.since + (e.now - max at s.since); hidden_at = none }

pub notice_dead : Env → Watch → Watch
notice_dead e s =
    if e.socket_closed && not (is_reconnecting s.phase)
    then record s {
      closed_at = if is_closed s.phase then s.closed_at else e.now;
      ready = false;
      phase = closed;
      resume_closed = true;
    }
    else s

abbrev pub hide : Env → Option ℕ → Option ℕ
hide e none = some e.now
hide e (some at) = some at

pub resume : Env → Watch → Watch × List Action
unfolding unhide notice_dead tick
resume e s =
    let t = unhide e s.hidden_at s in
    if e.hidden
    then (record s { hidden_at = hide e s.hidden_at }, [])
    else if t.stopped || t.exhausted
    then (t, [])
    else tick e (notice_dead e t)

-- What happens to the page and its socket. `loaded` is a new load of the page, by the script itself or by
-- the user. The button that retries by hand, which clears the stored count, and a page that is restored
-- from the browser's cache are left out.
pub data Event : Type 0 where
  ticked resumed : Env → Event
  token_answered : Bool → Event
  socket_made : ℕ → (live disposable : Bool) → Event
  opened failed_event : ℕ → Event
  message : ℕ → Bool → Event
  ended : Env → ℕ → ℕ → Event
  page_hidden : Event
  loaded : Env → Event

pub load : Env → Watch → Watch
load e s = record {
  socket = none;
  ready = false;
  stopped = false;
  exhausted = false;
  close_code = none;
  closed_at = 0;
  resume_closed = false;
  was_offline = false;
  since = e.now;
  phase = startup;
  retries = min 3 s.stored;
  hidden_at = if e.hidden then some e.now else none;
  foreground = true;
  stored = s.stored;
}

pub step : Event → Watch → Watch × List Action
unfolding tick resume token new_socket socket_opened socket_message socket_ended socket_failed load
step (ticked e) s = tick e s
step (resumed e) s = resume e s
step (token_answered fetched) s = token fetched s
step (socket_made id live disposable) s = new_socket id live disposable s
step (opened id) s = socket_opened id s
step (failed_event id) s = socket_failed id s
step (message id output) s = socket_message id output s
step (ended e id code) s = socket_ended e id code s
step page_hidden s = (record s { stopped = true }, [])
step (loaded e) s = (load e s, [])

pub run : List Event → Watch → Watch × List Action
unfolding step
run [] s = (s, [])
run (e ∷ es) s = let (t, first) = step e s in let (u, more) = run es t in (u, first ++ more)
