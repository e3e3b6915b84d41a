-- ===== src/Term/Resume/Receive/Packets.antt =====
-- What a terminal shows does not depend on how its output is cut into packets.
use vibetop.Base.{◌≡◌, true, false, Option, none, some, List, [], ◌∷◌, ◌++◌, Text}
use vibetop.Term.Resume.{Parsed, Session, Receiver}
use vibetop.Term.Resume.Receive.{then_do, handle, receive}
use vibetop.Term.Resume.Receive.Fuel.{run}
-- The characters that are shown, one by one among the other actions; the release of the input, which
-- shows nothing, is left out.
use vibetop.Term.Resume.Receive.Spell.{Result}

module _ (parse : Text → Parsed) (atob : Text → Option Text) where
  -- What comes after a packet.
  abbrev pub and_then : Result → (Receiver → Result) → Result
  and_then none k = none
  and_then (some (r, actions)) k = then_do actions (k r)

  -- Packets that arrive one after the other.
  pub receive_all : List Text → Receiver → Result
  receive_all [] r = some (r, [])
  receive_all (packet ∷ packets) r =
      and_then (receive parse atob true packet r) (receive_all packets)

  -- The next packet.
  next : Text → Result → Result
  next y none = none
  next y (some (r, actions)) = then_do actions (run parse atob (r.pending ++ y) r.session)

  -- No envelope is `null`, and what each brings and what is cached decodes.
  abbrev Readable : Type 0
  Readable = (body : Text) (s : Session) → (handle parse atob body s).threw ≡ false
