-- ===== src/Term/Http/Tests.antt =====
-- A socket over a concrete session, and the theorems there.
use vibetop.Base.{ℕ, ◌≡◌, refl, true, none, List, [], ◌∷◌, ◌++◌}
use vibetop.Term.Http.{
  Frame, Socket, Event, opened, send_event, microtask, answer, run, sent, size_of,
}
use vibetop.Term.Http.Batch.{items}
use vibetop.Term.Http.Turn.{stream, IsCounted}
use vibetop.Term.Http.Stream.{run-stream}
use vibetop.Term.Http.Native
use vibetop.Term.Http.Native.{born, timer, native_open, fallback_opened, frame, page_closes}

abbrev keyed : ℕ → Frame
keyed c = record { bytes = 48 ∷ c ∷ []; binary = true }

abbrev resized : ℕ → Frame
resized c = record { bytes = 49 ∷ c ∷ []; binary = true }

abbrev socket : Socket
socket = record {
  state = opened;
  http = true;
  seq = 0;
  after = 0;
  queue = [];
  buffered = 0;
  requests = [];
  awaited = none;
  delivered = [];
  native_sent = [];
}

-- The first key leaves at once; two more keys typed meanwhile leave together, before the resize.
abbrev typing : List Event
typing =
    send_event (keyed 97)
    ∷ send_event (keyed 98)
    ∷ send_event (keyed 99)
    ∷ send_event (resized 80)
    ∷ answer
    ∷ []

typed :
    (run typing socket).requests
    ≡ record { seq = 1; frames = keyed 97 ∷ []; size = 2 }
      ∷ record {
        seq = 2;
        frames = record { bytes = 48 ∷ 98 ∷ 99 ∷ []; binary = true } ∷ [];
        size = 4;
      }
      ∷ []
unfolding run
typed = refl

waiting : (run typing socket).queue ≡ resized 80 ∷ []
unfolding run
waiting = refl

-- Two resizes in a row leave in one request, after the microtask.
paired :
    (run (send_event (resized 79) ∷ send_event (resized 80) ∷ microtask ∷ []) socket).requests
    ≡ record { seq = 1; frames = resized 79 ∷ resized 80 ∷ []; size = 4 } ∷ []
unfolding run
paired = refl

run-stream_example :
    (stream (run typing socket) ≡ stream socket ++ items (sent typing))
    × IsCounted (run typing socket)
unfolding run size_of
run-stream_example = run-stream typing socket refl refl refl

-- The handshake takes too long, the requests open the socket, a late handshake changes nothing, and the page closes.
abbrev falling_back : List Native.Event
falling_back = timer ∷ fallback_opened ∷ native_open ∷ frame 7 ∷ page_closes ∷ []

fallen_back :
    (Native.run falling_back born).1
    ≡ Native.opens true ∷ Native.message true 7 ∷ Native.closes ∷ []
unfolding Native.run
fallen_back = refl
