-- ===== src/Lib.antt =====
-- Verification of vibetop, a desktop in the browser: a shell with windows, a terminal, a file
-- manager, games, and a proxied browser. The program is a set of scripts that were taken out of the
-- pages so that they can be tested, and the trusted side of the proxied browser. They interact by
-- calls and by stored state: the shell places the windows, the terminal forwards what is typed over a
-- socket or over plain requests, the games keep their scores in the local storage, and the proxied
-- browser drives its pages through a ledger of commands and a store of captured navigations. Each
-- part is modelled on its own, with its environment as an argument; Lite.Cookies.Embedded puts the contexts of
-- documents and the policy on cookies together as the gateway does.
--
-- Base has what the parts share: tests and numbers (Logic), lists (Lists), texts and maps in insertion
-- order (Texts, Maps), integers (Ints), string operations (Strings). A text is a list of code points. Arithmetic is on natural
-- numbers where the source never goes below zero, and on integers for places on the screen.
--
-- The parts, and what their files model:
-- - Term.TabSync: apps/everyday/terminal/lib/tab-sync.js, `reconcile` and `nextAvailable`.
-- - Term.KbdInput: apps/everyday/terminal/lib/kbd-input.js, the forwarder of the terminal's keyboard
--   overlay as a state machine over its handlers. Time enters as the event that fires the armed timer.
-- - Term.Http: apps/everyday/terminal/terminal-http.js, the terminal's transport over requests: the
--   queue and its batches (`_flush` is `flush`, `next_request`), `send`, `_deliver`, `_fail`, `_finish`. An event is
--   what runs without a pause. Term.Http.Native is the choice between the native socket and requests
--   (`step` is the listeners, the timer and `_fallback`). The retries inside a request and the streamed
--   poll are left out.
-- - Term.Watch: apps/everyday/terminal/terminal-connection.js, the watch that recovers a lost terminal: `tick`
--   (the interval), `resume`, the socket's events and the loads of the page as events on a state, with the clock
--   and the page as an argument. What it does is a trace. The bug reports of the mouse and the closing key are left out.
-- - Term.Resume: apps/everyday/terminal/terminal-resume.js, the envelopes in a terminal's output (`receive`), the cache
--   of the output (Store) and the input that waits (`send`, `allowInput`). `JSON.parse` and `atob` are arguments.
-- - Lite.Ledger: apps/everyday/browser-lite/proxy/control-ledger.cjs, one lane of commands per tab. The
--   browser's answer and the digest are parameters, the calls to the browser a trace.
-- - Lite.Url, Lite.Navigation: `upstreamUrl` of origin-policy.cjs, and navigation.cjs beside it: captures,
--   approvals, dispatches and completions as operations on a store. The random identifiers, the clock
--   and the URL parser are arguments.
-- - Lite.MessageGate: message-gate.js beside it, the messages that wait for the origin of their sender, with
--   arrivals and answers as events.
-- - Lite.History: document-history.js beside it, the journal of a page's history (`vibetopInstallHistory`); the page
--   and the browser act as events, the parser of addresses and the identifiers are arguments. The guard of nested
--   frames in that file is left out.
-- - Lite.Egress: egress.cjs beside it, the proxy that every connection takes: the policy (`destination`, `publicAddress`), the
--   checks of the handlers, the headers (Headers) and the count of connections (Slots, a step relation). The address
--   library, the resolver and the network interfaces are arguments; what is piped is left out.
-- - Lite.Origins: origin-policy.cjs beside it, the registry of the hosts of origins, which forgets the origin used least
--   recently, and the origin of a request. The URL parser and the digest are arguments.
-- - Lite.Realms: realm-policy.cjs beside it, the contexts of documents, their signed tokens, the registry of hosts and
--   the authorizations. The URL parser, the suffix list, HMAC, base64url and JSON are arguments; File has the file of the
--   registry, whose lines are arguments too.
-- - Lite.Cookies: cookie-policy.cjs, redirect-policy.cjs and `useCookieJar` of origin-policy.cjs beside it. The jar is an argument.
-- - Lite.Workers: worker-store.cjs beside it, the sources of workers and those who wait for them. The clock, the random
--   identifiers and the test of an identifier are arguments; the metadata is left out.
-- - Shell.WinMgr: shell/winmgr.js. Geometry has `clampGeom`, `resizeGeom` and `snapTarget`, Layouts the snap
--   layouts with fractions as quotients, Tiles `tileGrid`, Zones `zoneAssign` and `swapZones`,
--   Occupancy `zoneOccupancy`, Gaps `gapZones`.
-- - Shell.DeskState: shell/deskstate.js, `isRunning`, `resetDecision` and `closeTargetsFor`; the minted name of an
--   instance, which is formatting, is left out.
-- - Shared.GameScore: shared/gamescore.js, the tables of scores and the statistics over a model of the
--   local storage that is never full or refused.
-- - Files: apps/everyday/files/filesx-core.js, paths and names (Paths), arrow keys (Grid), the preview that
--   follows its file (Preview), kinds by extension (Kinds).
--
-- Bounds and fuel. `ceil_sqrt` of Shell.WinMgr.Tiles counts up to its argument, whose square reaches it.
-- `show` of Files.Paths prints a number within one more digit than its value, which is enough. The `loop` of Term.Resume.Receive
-- has one round more than the pending text has characters, and a round shortens it. No other
-- definition has fuel: loops are recursion on the list that they walk. Numbers are unbounded; the
-- source's are exact below 2 ^ 53, which the places, sizes and counters here do not reach.
--
-- Not modelled: what only draws into a page, moves files or runs processes; the server, which is in
-- another language; the pages' inline scripts; the patches of third-party clients and engines.
pub mod Base
pub mod Files
pub mod Lite
pub mod Shared
pub mod Shell
pub mod Term
