-- ===== src/Files/Paths/Resolve.antt =====
-- A resolved path consists of names, and resolving it again changes nothing.
use vibetop.Base.{◌≡◌, Bool, true, false, ◌&&◌, ◌||◌, not, List, [], ◌∷◌, ◌==◌, reverse, Text}
use vibetop.Files.Paths.{slash, is_here, is_up, split, walk}

abbrev has_slash : Text → Bool
has_slash [] = false
has_slash (c ∷ cs) = c == slash || has_slash cs

-- A piece of a path that names a file or a folder.
abbrev is_name : Text → Bool
is_name seg = not (is_here seg) && not (is_up seg) && not (has_slash seg)

pub AllNames : List Text → Type 0
AllNames [] = Unit
AllNames (s ∷ ss) = (is_name s ≡ true) × AllNames ss

AllPieces : List Text → Type 0
AllPieces [] = Unit
AllPieces (s ∷ ss) = (has_slash s ≡ false) × AllPieces ss

-- The names of a path.
pub names_of : Text → List Text
names_of p = reverse (walk [] (split p))
