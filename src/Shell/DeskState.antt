-- ===== src/Shell/DeskState.antt =====
-- shell/deskstate.js: what a client of the desktop makes of the reply to its heartbeat. An absent list counts as
-- empty, as the code has it; a value of the wrong type is `none`.
pub mod Close
mod Tests
use vibetop.Base.{
  ℕ, Bool, true, false, ◌&&◌, ◌||◌, Option, none, some, List, [], ◌∷◌, if◌then◌else◌, ltb, Text,
  same, codes,
}

-- `xs.indexOf(k) !== -1`
pub contains : Text → List Text → Bool
contains k [] = false
contains k (x ∷ xs) = same x k || contains k xs

pub record Desk : Type 0 where
  pub windows : List Text
  pub running : List Text
  pub window_count : ℕ
  pub terminal_count : ℕ

pub is_running : Text → Desk → Bool
unfolding contains
is_running id s =
    if same id (codes "x11launcher")
    then ltb 0 s.window_count
    else if contains id s.windows
    then true
    else if contains id s.running
    then true
    else if same id (codes "terminal")
    then ltb 0 s.terminal_count
    else false

pub data Decision : Type 0 where
  no_reset baseline clear : Decision

pub reset_decision : Option ℕ → Option ℕ → Decision
reset_decision last none = no_reset
reset_decision none (some epoch) = baseline
reset_decision (some last) (some epoch) = if ltb last epoch then clear else no_reset

-- Whether a list of instances, if it is one, has the instance.
pub names : Text → Option (List Text) → Bool
names me none = false
names me (some ids) = contains me ids

-- The loop of `closeTargetsFor` over the server's targets.
pub targets_among : List (Text × Option (List Text)) → Text → List Text → List Text
unfolding names
targets_among [] me windows = []
targets_among ((app, ids) ∷ more) me windows =
    let rest = targets_among more me windows in
    if names me ids && contains app windows then app ∷ rest else rest

pub close_targets_for : Option (List (Text × Option (List Text))) → Text → List Text → List Text
unfolding targets_among
close_targets_for none me windows = []
close_targets_for (some targets) me windows = targets_among targets me windows

-- What stays open when the apps are closed.
pub still_open : List Text → List Text → List Text
still_open closing [] = []
still_open closing (app ∷ windows) =
    let rest = still_open closing windows in if contains app closing then rest else app ∷ rest
