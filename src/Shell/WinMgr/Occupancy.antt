-- ===== src/Shell/WinMgr/Occupancy.antt =====
-- shell/winmgr.js: `zoneOccupancy`, which recognizes a layout in the places of the windows. `geoms` is an object from the
-- windows' names, which are not empty, to their places; `used` the names that are taken. An absent or zero tolerance is 4.
pub mod Found
mod Tests
use vibetop.Base.{
  ℕ, zero, suc, ◌+◌, ◌≡◌, refl, sym, ◌∙◌, ap, Bool, true, false, ◌&&◌, ◌||◌, not, Option, none,
  some, List, [], ◌∷◌, if◌then◌else◌, if_elim, ◌==◌, arith, length, Text, same, same_refl, same_iff,
  lookup, ℤ, pos, ◌+ℤ◌, leb_ℤ, Bool-cases, Option-cases, eq_of_same, KeysDistinct, ==_iff,
}
use vibetop.Shell.WinMgr.Geometry.{Geom}

-- `Math.abs(a - b) <= tol`
pub near : ℕ → ℤ → ℤ → Bool
near tol a b = leb_ℤ a (b +ℤ pos tol) && leb_ℤ b (a +ℤ pos tol)

pub fits : ℕ → Geom → Geom → Bool
unfolding near
fits tol g z =
    near tol g.left z.left
    && near tol g.top z.top
    && near tol g.width z.width
    && near tol g.height z.height

-- `used[id]`
unfoldable pub is_used : Text → List Text → Bool
is_used id [] = false
is_used id (x ∷ xs) = same x id || is_used id xs

-- The window of a zone, if any, or nothing at all where two windows claim it.
pub claimant : ℕ → Geom → List Text → List (Text × Geom) → Option Text → Option (Option Text)
unfolding fits is_used
claimant tol z used [] hit = some hit
claimant tol z used ((id, g) ∷ geoms) none =
    let passed = claimant tol z used geoms none in
    let taken = claimant tol z used geoms (some id) in
    if is_used id used then passed else if fits tol g z then taken else passed
claimant tol z used ((id, g) ∷ geoms) (some hit) =
    let passed = claimant tol z used geoms (some hit) in
    if is_used id used then passed else if fits tol g z then none else passed

unfoldable pub claim_all : ℕ → List (Text × Geom) → List Geom → List Text → Option (List Text)
unfolding claimant
claim_all tol geoms [] used = some []
claim_all tol geoms (z ∷ zones) used = elim (claimant tol z used geoms none) [
  | none ↦ none
  | some hit ↦ elim hit [
    | none ↦ none
    | some id ↦ elim (claim_all tol geoms zones (id ∷ used)) [
      | none ↦ none
      | some out ↦ some (id ∷ out)
    ]
  ]
]

pub zone_occupancy : List Geom → List (Text × Geom) → ℕ → Option (List Text)
unfolding claim_all
zone_occupancy zones geoms tol =
    if length geoms == length zones
    then claim_all (if tol == 0 then 4 else tol) geoms zones []
    else none
