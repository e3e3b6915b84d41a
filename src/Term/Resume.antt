-- ===== src/Term/Resume.antt =====
-- apps/everyday/terminal/terminal-resume.js: the envelopes that the server puts into a terminal's output, the cached
-- output, and the input that waits. A text is a list of character codes. `JSON.parse` and `atob` are arguments, and a
-- JSON value is what the code reads of it. While a packet waits for the cache to load, later ones wait behind
-- it, so that a packet is one event here, and whether its socket is the current one is an argument.
pub mod Store
pub mod Scan
pub mod Turns
pub mod Receive
use vibetop.Base.{
  ℕ, zero, suc, ◌+◌, Bool, true, false, ◌&&◌, ◌||◌, not, Option, none, some, List, [], ◌∷◌, ◌++◌,
  if◌then◌else◌, ltb, leb, ◌==◌, length, Text, same, same_option, codes,
}

-- `PREFIX`
pub marker : Text
marker = 27 ∷ codes "]777;vt-resume;"

-- A `null` offset, one that is a safe integer of zero or more, or any other value.
pub data Offset : Type 0 where
  unset other : Offset
  at : ℕ → Offset

pub record Frame : Type 0 where
  pub ready : Bool
  pub reset : Bool
  pub epoch : Option Text
  pub offset : Offset
  pub payload : Option Text

pub data Parsed : Type 0 where
  malformed null_value : Parsed
  parsed : Frame → Parsed

pub record Cache : Type 0 where
  pub epoch : Option Text
  pub offset : Offset
  pub chunks : List Text
  pub size : ℕ

-- What the script does: text for the terminal, the release of the input, a request to the server, a
-- save of the cache now or after a while, and the close of the socket.
pub data Action : Type 0 where
  show : Text → Action
  allow_input save changed close : Action
  request : Option (Text × ℕ) → Action

-- What has been received of a socket's output, beside the page's cache.
pub record Session : Type 0 where
  pub first : Bool
  pub negotiated : Bool
  pub cache : Option Cache

pub record Receiver : Type 0 where
  pub pending : Text
  pub session : Session

-- The text after a prefix.
pub strip_prefix : Text → Text → Option Text
strip_prefix [] xs = some xs
strip_prefix (p ∷ ps) [] = none
strip_prefix (p ∷ ps) (x ∷ xs) = let rest = strip_prefix ps xs in if p == x then rest else none

-- The text before the first occurrence of a text that is not empty, and the text after it.
pub cut : Text → Text → Option (Text × Text)
unfolding strip_prefix
cut p [] = none
cut p (x ∷ xs) = elim (strip_prefix p (x ∷ xs)) [
  | some rest ↦ some ([], rest)
  | none ↦ elim (cut p xs) [ none ↦ none | some (before, rest) ↦ some (x ∷ before, rest) ]
]

-- The longest end of a text that may begin the prefix, and what stands before it.
pub hold_back : Text → Text → Text × Text
unfolding strip_prefix
hold_back p [] = ([], [])
hold_back p (x ∷ xs) =
    let (plain, kept) = hold_back p xs in
    elim (strip_prefix (x ∷ xs) p) [ some _ ↦ ([], x ∷ xs) | none ↦ (x ∷ plain, kept) ]

-- The text before the first bell, and the text after it.
pub until_bell : Text → Option (Text × Text)
until_bell [] = none
until_bell (x ∷ xs) =
    let rest = until_bell xs in
    if x == 7
    then some ([], xs)
    else elim rest [ none ↦ none | some (before, after) ↦ some (x ∷ before, after) ]

-- The text from the last occurrence of the prefix.
pub from_last : Text → Text → Option Text
unfolding strip_prefix
from_last p [] = none
from_last p (x ∷ xs) = elim (from_last p xs) [
  | some later ↦ some later
  | none ↦ elim (strip_prefix p (x ∷ xs)) [ none ↦ none | some _ ↦ some (x ∷ xs) ]
]

-- A turn of the loop over the pending text: no marker; an envelope without its end; a marker in an
-- envelope, which begins a new one; or an envelope.
pub data Turn : Type 0 where
  plain : (before kept : Text) → Turn
  unfinished : (before rest : Text) → Turn
  broken : (before rest : Text) → Turn
  envelope : (before body after : Text) → Turn

-- What follows a marker. A newer marker does not begin at the place of this one.
pub scan_envelope : Text → Text → Turn
unfolding until_bell from_last marker
scan_envelope before rest = elim (until_bell rest) [
  | none ↦ unfinished before (marker ++ rest)
  | some (body, after) ↦ elim (from_last marker body) [
    | some newer ↦ broken before (newer ++ 7 ∷ after)
    | none ↦ envelope before body after
  ]
]

pub scan : Text → Turn
unfolding cut hold_back scan_envelope marker
scan pending = elim (cut marker pending) [
  | none ↦ let (before, kept) = hold_back marker pending in plain before kept
  | some (before, rest) ↦ scan_envelope before rest
]

-- `output`
abbrev pub output : Text → List Action
output [] = []
output (x ∷ xs) = show (x ∷ xs) ∷ []
