-- ===== src/Shell/WinMgr/Layouts/Tests.antt =====
-- The layouts at concrete frames.
use vibetop.Base.{ℕ, ◌≡◌, ◌<◌, refl, true, none, some, List, [], ◌∷◌}
use vibetop.Shell.WinMgr.Layouts.{Box, Geom, thirds, columns, quads, layout_geoms, layouts_for}
use vibetop.Shell.WinMgr.Layouts.Tiling.{covering, all_large, layout_geoms-tile}

abbrev frame : Box
frame = record { w = 1400; h = 900 }

abbrev tablet : Box
tablet = record { w = 656; h = 900 }

-- Thirds of 1400 share their edges.
abbrev parts : List Geom
parts =
    record { left = 0; top = 0; width = 467; height = 900 }
    ∷ record { left = 467; top = 0; width = 466; height = 900 }
    ∷ record { left = 933; top = 0; width = 467; height = 900 }
    ∷ []

thirds_of_frame : layout_geoms thirds frame ≡ some parts
unfolding layout_geoms
thirds_of_frame = refl

-- A narrow frame has no room for three columns.
thirds_of_tablet : layout_geoms thirds tablet ≡ none
unfolding layout_geoms
thirds_of_tablet = refl

offered_for_four : layouts_for frame 4 ≡ quads ∷ columns ∷ []
unfolding layouts_for
offered_for_four = refl

layout_geoms-tile_example :
    ((x y : ℕ) → x < 1400 → y < 900 → covering x y parts ≡ 1) × (all_large parts ≡ true)
layout_geoms-tile_example = layout_geoms-tile thirds frame (unfold layout_geoms in refl)
