-- ===== src/Term/Resume/Receive/Tests.antt =====
-- A session in packets, and the theorems there.
use vibetop.Base.{
  ℕ, ◌≡◌, refl, Bool, true, false, Option, none, some, List, [], ◌∷◌, ◌++◌, Text, codes, arith,
  keep, if◌then◌else◌, ◌==◌, same_option, same,
}
use vibetop.Term.Resume.{
  Frame, Parsed, malformed, parsed, at, marker, Receiver, show, save, allow_input, request,
}
use vibetop.Term.Resume.Store.{remember, restored, valid, without_queries}
use vibetop.Term.Resume.Store.Replay.{
  Piece, remember_all, text_of, reached_by, restored-remember_all,
}
use vibetop.Term.Resume.Receive.{receive, Input, is_typed}
use vibetop.Term.Resume.Receive.Fuel.{Ends, receive-Ends}
use vibetop.Term.Resume.Receive.Typed.{
  Event, sends, releases, run_input, frames, untyped, run_input-typed,
}

abbrev frame : Bool → ℕ → Text → Frame
frame resets n t = record {
  ready = false;
  reset = resets;
  epoch = some (codes "e");
  offset = at n;
  payload = some t;
}

-- Bodies of one letter; the payload is what follows.
abbrev reads_as : Text → Parsed
reads_as [] = malformed
reads_as (c ∷ rest) =
    if c == b'r'
    then parsed (record (frame false 0 []) { ready = true })
    else if c == b'n'
    then parsed (frame true 10 rest)
    else parsed (frame false 20 rest)

abbrev as_it_is : Text → Option Text
as_it_is t = some t

abbrev wrapped : Text → Text
wrapped t = marker ++ t ++ 7 ∷ []

abbrev fresh : Receiver
fresh = record { pending = []; session = record { first = true; negotiated = false; cache = none } }

abbrev packets : List Text
packets = wrapped (codes "r") ∷ (wrapped (codes "nab") ++ codes "x") ∷ wrapped (codes "dc") ∷ []

-- The screen is cleared and the input released before the first text.
shown :
    (receive reads_as as_it_is true
      (wrapped (codes "r") ++ wrapped (codes "nab") ++ codes "x")
      fresh)
    ≡ some (
      record {
        pending = [];
        session = record {
          first = false;
          negotiated = true;
          cache = some (record {
            epoch = some (codes "e");
            offset = at 10;
            chunks = codes "ab" ∷ [];
            size = 2;
          });
        };
      },
      request none
          ∷ show (27 ∷ 99 ∷ [])
          ∷ allow_input
          ∷ show (codes "ab")
          ∷ save
          ∷ show (codes "x")
          ∷ [],
    )
unfolding receive marker remember valid restored same_option same
shown = refl

-- A marker is held back, whatever it turns out to be.
held :
    (receive reads_as as_it_is true (27 ∷ 93 ∷ 55 ∷ []) fresh)
    ≡ some (record fresh { pending = 27 ∷ 93 ∷ 55 ∷ [] }, [])
unfolding receive
held = refl

-- The terminal does not answer the queries of the text that is restored.
quiet :
    without_queries 0 (27 ∷ codes "[0c" ++ codes "ok" ++ 27 ∷ codes "]11;?" ++ 7 ∷ codes "!")
    ≡ codes "ok!"
unfolding without_queries
quiet = refl

receive-Ends_example : Ends reads_as as_it_is (receive reads_as as_it_is true (codes "ab") fresh)
receive-Ends_example = receive-Ends reads_as as_it_is true (codes "ab") fresh

abbrev idle : Input
idle = record { is_ready = false; waiting = []; waiting_size = 0; closed = false; sent = [] }

abbrev typing : List Event
typing =
    sends (codes "0a")
    ∷ sends (codes "1{}")
    ∷ sends (codes "0b")
    ∷ releases
    ∷ sends (codes "0c")
    ∷ []

run_input-typed_example :
    (keep is_typed (run_input typing idle).sent ++ (run_input typing idle).waiting
      ≡ codes "0a" ∷ codes "0b" ∷ codes "0c" ∷ [])
    × (keep untyped (run_input typing idle).sent ≡ codes "1{}" ∷ [])
unfolding run_input frames
run_input-typed_example =
    run_input-typed typing idle (record { typed = refl; released = λ r. refl }) refl

abbrev first_piece : Piece
first_piece = record {
  frame = frame true 10 (codes "ab");
  payload = codes "ab";
  chunk = codes "ab";
}

abbrev second_piece : Piece
second_piece = record { frame = frame false 20 (codes "c"); payload = codes "c"; chunk = codes "c" }

restored-remember_all_example :
    (restored as_it_is (remember_all (first_piece ∷ second_piece ∷ []) none)
      ≡ some (without_queries 0 (codes "abc")))
    × (valid (remember_all (first_piece ∷ second_piece ∷ []) none) ≡ some (codes "e", 20))
unfolding text_of reached_by
restored-remember_all_example =
    restored-remember_all as_it_is first_piece (second_piece ∷ []) none (codes "e") 20 refl refl
      refl (refl, refl, refl, tt) (omega arith) refl
