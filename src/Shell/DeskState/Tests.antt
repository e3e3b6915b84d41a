-- ===== src/Shell/DeskState/Tests.antt =====
-- Replies to a heartbeat, and the theorem on one of them.
use vibetop.Base.{◌≡◌, refl, false, ◌&&◌, not, Option, none, some, List, [], ◌∷◌, Text, codes, same}
use vibetop.Shell.DeskState.{
  contains, is_running, clear, baseline, reset_decision, close_targets_for, still_open,
}
use vibetop.Shell.DeskState.Close.{asked, close_targets_for-still_open}

abbrev files : Text
files = codes "files"

abbrev launcher : Text
launcher = codes "x11launcher"

abbrev device : Text
device = codes "i-1"

abbrev open_apps : List Text
open_apps = files ∷ launcher ∷ []

abbrev targets : Option (List (Text × Option (List Text)))
targets = some ((files, some (device ∷ [])) ∷ (launcher, some (codes "i-2" ∷ [])) ∷ [])

-- The dot of the launcher follows the windows of its programs, not its own.
dark :
    is_running launcher
      (record { windows = open_apps; running = []; window_count = 0; terminal_count = 1 })
    ≡ false
unfolding same is_running
dark = refl

-- The first epoch is a baseline, a later one a reset.
epochs : (reset_decision none (some 4) ≡ baseline) × (reset_decision (some 4) (some 5) ≡ clear)
unfolding reset_decision
epochs = (refl, refl)

close_targets_for-still_open_example :
    let closing = close_targets_for targets device open_apps in
    ((app : Text) → contains app closing ≡ (asked app device targets && contains app open_apps))
    × (close_targets_for targets device (still_open closing open_apps) ≡ [])
    × ((app : Text)
        → contains app (still_open closing open_apps)
          ≡ (contains app open_apps && not (asked app device targets)))
close_targets_for-still_open_example = close_targets_for-still_open targets device open_apps
