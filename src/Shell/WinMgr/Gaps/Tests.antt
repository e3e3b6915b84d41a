-- ===== src/Shell/WinMgr/Gaps/Tests.antt =====
-- Two halves of a frame with the gap of the desktop between them, which is half its margin.
use vibetop.Base.{pos, ◌≡◌, refl}
use vibetop.Shell.WinMgr.Layouts.{Box, Geom}
use vibetop.Shell.WinMgr.Gaps.{gap_zone, gap_zone-Seams, Seams, across, down}

abbrev frame : Box
frame = record { w = 1000; h = 800 }

abbrev left_half : Geom
left_half = record { left = 0; top = 0; width = 500; height = 800 }

abbrev right_half : Geom
right_half = record { left = 500; top = 0; width = 500; height = 800 }

-- The right half ends at 991, not at 990.
too_long :
    gap_zone frame 10 5 right_half
    ≡ record { left = pos 503; top = pos 10; width = pos 488; height = pos 780 }
unfolding gap_zone
too_long = refl

gap_zone-Seams_example :
    Seams 1000 10 5 0 500 500 500
      (across (gap_zone frame 10 5 left_half))
      (across (gap_zone frame 10 5 right_half))
    × Seams 800 10 5 0 800 0 800
        (down (gap_zone frame 10 5 left_half))
        (down (gap_zone frame 10 5 right_half))
gap_zone-Seams_example = gap_zone-Seams frame 10 5 left_half right_half
