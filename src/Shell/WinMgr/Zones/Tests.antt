-- ===== src/Shell/WinMgr/Zones/Tests.antt =====
-- The assignment of windows to zones, and its theorems at concrete inputs.
use vibetop.Base.{ℕ, ◌≡◌, refl, none, some, List, [], ◌∷◌}
use vibetop.Shell.WinMgr.Zones.{zone_assign}

abbrev windows : List ℕ
windows = 11 ∷ 12 ∷ 13 ∷ 14 ∷ []

-- Without a focused window, the windows stand in their order, as far as there are zones.
unfocused : zone_assign windows none 3 2 ≡ some 11 ∷ some 12 ∷ some 13 ∷ []
unfolding zone_assign
unfocused = refl

-- A focused window that is not there changes nothing.
absent : zone_assign windows (some 9) 2 1 ≡ some 11 ∷ some 12 ∷ []
unfolding zone_assign
absent = refl

-- With no zone at all, the focused window still gets one.
no_zone : zone_assign windows (some 12) 0 1 ≡ some 12 ∷ []
unfolding zone_assign
no_zone = refl
