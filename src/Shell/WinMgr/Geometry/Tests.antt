-- ===== src/Shell/WinMgr/Geometry/Tests.antt =====
-- Windows at concrete places, and the theorems of the geometry there.
use vibetop.Base.{◌≡◌, refl, true, false, none, pos, negsuc, leb_ℤ, ◌+ℤ◌, ◌-ℤ◌}
use vibetop.Shell.WinMgr.Geometry.{Box, Geom, Limits, Dir, clamp_geom, resize_geom, snap_target}
use vibetop.Shell.WinMgr.Geometry.Edges.{IsDragged, resize_geom-Anchored}

abbrev frame : Box
frame = record { w = 1000; h = 800 }

abbrev limits : Limits
limits = record { minw = pos 320; minh = pos 200; m = pos 10 }

abbrev window : Geom
window = record { left = pos 100; top = pos 100; width = pos 400; height = pos 300 }

abbrev corner : Dir
corner = record { n = true; s = false; e = false; w = true }

-- A drag to the right at the north-west corner: the smallest width pins the left edge, and the right
-- edge stays at 500.
pinned :
    resize_geom window corner (pos 300) (negsuc 19) frame limits
    ≡ record { left = pos 180; top = pos 80; width = pos 320; height = pos 320 }
unfolding resize_geom
pinned = refl

-- A window far out is brought back.
back :
    clamp_geom
      (record { left = negsuc 500; top = pos 5000; width = pos 3000; height = pos 10 })
      frame
      limits
    ≡ record { left = pos 10; top = pos 590; width = pos 980; height = pos 200 }
unfolding clamp_geom
back = refl

-- In the middle of the frame nothing snaps.
middle : snap_target (pos 500) frame (pos 18) (pos 10) ≡ none
unfolding snap_target
middle = refl

resize_geom-Anchored_example :
    IsDragged window corner frame limits
      (resize_geom window corner (pos 300) (negsuc 19) frame limits)
unfolding leb_ℤ ◌+ℤ◌ ◌-ℤ◌
resize_geom-Anchored_example =
    resize_geom-Anchored window corner (pos 300) (negsuc 19) frame limits
      ((refl, refl, refl), (refl, refl, refl)) refl refl
