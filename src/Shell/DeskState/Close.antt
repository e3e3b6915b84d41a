-- ===== src/Shell/DeskState/Close.antt =====
-- The close requests of other devices.
use vibetop.Base.{
  ◌≡◌, refl, ap, Bool, true, false, ◌&&◌, ◌||◌, not, Option, none, some, List, [], ◌∷◌, if_elim,
  arith, Text, same, same_iff, same_refl,
}
use vibetop.Shell.DeskState.{contains, names, targets_among, close_targets_for, still_open}

-- Each target that names the instance and is open is among the apps.
abbrev Covers : List (Text × Option (List Text)) → Text → List Text → List Text → Type 0
Covers [] me windows out = Unit
Covers ((app, ids) ∷ more) me windows out =
    ((names me ids && contains app windows) ≡ true → contains app out ≡ true)
    × Covers more me windows out

Covers-cons :
    (targets : List (Text × Option (List Text))) (me : Text) (windows out : List Text) (app : Text)
    → Covers targets me windows out
    → Covers targets me windows (app ∷ out)
unfolding contains
Covers-cons [] me windows out app c = tt
Covers-cons ((target, ids) ∷ more) me windows out app (here, later) =
    (λ h. ground (arith, here h), Covers-cons more me windows out app later)

Covers-targets :
    (targets : List (Text × Option (List Text))) (me : Text) (windows : List Text)
    → Covers targets me windows (targets_among targets me windows)
unfolding targets_among contains
Covers-targets [] me windows = tt
Covers-targets ((app, ids) ∷ more) me windows =
    let rest = targets_among more me windows in
    let later = Covers-targets more me windows in
    if_elim
      (λ (out : List Text).
        ((names me ids && contains app windows) ≡ true → contains app out ≡ true)
        × Covers more me windows out)
      (names me ids && contains app windows)
      (λ yes. (λ h. rw (same_refl app) refl, Covers-cons more me windows rest app later))
      (λ no. (λ h. ground (arith, h, no), later))

contains-still_open :
    (app : Text) (closing windows : List Text)
    → contains app (still_open closing windows)
      ≡ (contains app windows && not (contains app closing))
unfolding contains still_open
contains-still_open app closing [] = refl
contains-still_open app closing (x ∷ windows) = ground (
  arith,
  contains-still_open app closing windows,
  same_iff x app,
  ap (λ k. contains k closing) {x = x} {y = app},
)

nothing_left :
    (targets : List (Text × Option (List Text))) (me : Text) (windows closing : List Text)
    → Covers targets me windows closing
    → targets_among targets me (still_open closing windows) ≡ []
unfolding targets_among
nothing_left [] me windows closing c = refl
nothing_left ((app, ids) ∷ more) me windows closing (here, later) = ground (
  arith,
  here,
  contains-still_open app closing windows,
  nothing_left more me windows closing later,
)

-- The server asks the instance to close the app.
pub asked : Text → Text → Option (List (Text × Option (List Text))) → Bool
asked app me none = false
asked app me (some targets) = among targets
  where
    among : List (Text × Option (List Text)) → Bool
    among [] = false
    among ((target, ids) ∷ more) = (same target app && names me ids) || among more

contains-targets :
    (app : Text) (targets : List (Text × Option (List Text))) (me : Text) (windows : List Text)
    → contains app (targets_among targets me windows)
      ≡ (asked app me (some targets) && contains app windows)
unfolding targets_among contains asked
contains-targets app [] me windows = refl
contains-targets app ((target, ids) ∷ more) me windows = ground (
  arith,
  contains-targets app more me windows,
  same_iff target app,
  ap (λ k. contains k windows) {x = target} {y = app},
)

-- The apps to close are those that the server asks this instance to close and that are open here, and
-- closing them is enough: with the same reply of the server, no app is left to close among those still
-- open; and what stays open is what was open and was not asked for.
pub close_targets_for-still_open :
    (targets : Option (List (Text × Option (List Text)))) (me : Text) (windows : List Text)
    → let closing = close_targets_for targets me windows in
      ((app : Text) → contains app closing ≡ (asked app me targets && contains app windows))
      × (close_targets_for targets me (still_open closing windows) ≡ [])
      × ((app : Text)
          → contains app (still_open closing windows)
            ≡ (contains app windows && not (asked app me targets)))
unfolding close_targets_for contains asked
close_targets_for-still_open none me windows =
    (λ app. refl, refl, λ app. contains-still_open app [] windows)
close_targets_for-still_open (some targets) me windows =
    let closing = targets_among targets me windows in
    (
      λ app. contains-targets app targets me windows,
      nothing_left targets me windows closing (Covers-targets targets me windows),
      λ app.
          ground (
            arith,
            contains-targets app targets me windows,
            contains-still_open app closing windows,
          ),
    )
