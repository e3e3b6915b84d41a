-- ===== src/Shared/GameScore/Tests.antt =====
-- Runs of the games at concrete inputs, and the theorems there.
use vibetop.Base.{
  ℕ, ◌+◌, ◌≡◌, refl, Bool, true, false, none, some, Option, List, [], ◌∷◌, Text, lookup, put, same,
  same_option,
}
use vibetop.Shared.GameScore.{Options, Disk, Stats, record_run}
use vibetop.Shared.GameScore.Streaks.{IsSound, wins, played}

abbrev empty : Disk
empty = record { scores = []; stats = []; seeded = []; seeds = [] }

abbrev game : Text
game = 50 ∷ []

abbrev key : Text
key = 98 ∷ []

abbrev legacy : Disk
legacy = record { scores = []; stats = []; seeded = []; seeds = (key, 1376) ∷ [] }

abbrev options : ℕ → Option Text → Options
options v session = record {
  game = game;
  board = [];
  value = v;
  lower = false;
  session = session;
  seed = some key;
}

-- A run that equals the imported score takes its place.
replaced : (record_run (options 1376 none) 5 legacy).1 ≡ 1
unfolding record_run lookup put same same_option
replaced = refl

replaced_rows :
    (record_run (options 1376 none) 5 legacy).2 ≡ record { v = 1376; t = 5; s = none } ∷ []
unfolding record_run lookup put same same_option
replaced_rows = refl

-- A run below the imported score stands behind it.
second : (record_run (options 20 none) 5 legacy).1 ≡ 2
unfolding record_run lookup put same same_option
second = refl

-- The same session again replaces its row.
again :
    (record_run (options 30 (some key)) 6 (record_run (options 20 (some key)) 5 empty).0).2
    ≡ record { v = 30; t = 6; s = some key } ∷ []
unfolding record_run lookup put same same_option
again = refl

abbrev three : List (Bool × List (Text × ℕ))
three = (true, []) ∷ (true, (key, 512) ∷ []) ∷ (false, (key, 64) ∷ []) ∷ []

abbrev Grown : Stats → Stats → Type 0
Grown s t = IsSound t × (t.n ≡ s.n + played three) × (t.w ≡ s.w + wins three)
