-- ===== src/Shell/WinMgr/Occupancy/Tests.antt =====
-- Arrangements of two windows, and the theorems on one of them.
use vibetop.Base.{
  ℕ, ◌≡◌, refl, true, false, none, List, [], ◌∷◌, arith, pos, ◌+ℤ◌, leb_ℤ, Text, codes, same,
  same_iff,
}
use vibetop.Shell.WinMgr.Geometry.{Geom}
use vibetop.Shell.WinMgr.Occupancy.{zone_occupancy, is_used, fits}
use vibetop.Shell.WinMgr.Occupancy.Found.{has_fit, tolerance}

abbrev place : ℕ → Geom
place left = record { left = pos left; top = pos 0; width = pos 400; height = pos 600 }

abbrev two_zones : List Geom
two_zones = place 0 ∷ place 400 ∷ []

-- The second window is a few pixels off.
abbrev two_windows : List (Text × Geom)
two_windows = (codes "w1", place 403) ∷ (codes "w2", place 0) ∷ []

abbrev crowded : List (Text × Geom)
crowded = (codes "w1", place 2) ∷ (codes "w2", place 0) ∷ []

-- Two windows on one zone are no layout.
not_recognized : zone_occupancy two_zones crowded 0 ≡ none
unfolding zone_occupancy is_used leb_ℤ ◌+ℤ◌ same
not_recognized = refl

abbrev occupants : List Text
occupants = codes "w2" ∷ codes "w1" ∷ []

-- The places of the two windows are apart.
apart : (fits 4 (place 403) (place 0) ≡ false) × (fits 4 (place 0) (place 400) ≡ false)
unfolding fits leb_ℤ ◌+ℤ◌
apart = (refl, refl)

sole_first : (k : Text) → has_fit (tolerance 0) (place 0) k two_windows ≡ true → k ≡ codes "w2"
unfolding has_fit
sole_first k h = ground (arith, h, apart.0, same_iff (codes "w2") k)

sole_second : (k : Text) → has_fit (tolerance 0) (place 400) k two_windows ≡ true → k ≡ codes "w1"
unfolding has_fit
sole_second k h = ground (arith, h, apart.1, same_iff (codes "w1") k)
