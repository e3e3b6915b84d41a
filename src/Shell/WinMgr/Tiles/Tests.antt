-- ===== src/Shell/WinMgr/Tiles/Tests.antt =====
-- The even grid at concrete frames.
use vibetop.Base.{◌≡◌, refl, [], ◌∷◌, arith}
use vibetop.Shell.WinMgr.Layouts.{Box}
use vibetop.Shell.WinMgr.Layouts.Tiling.{covering}
use vibetop.Shell.WinMgr.Tiles.{tile_grid, columns_of, tile_capacity}
use vibetop.Shell.WinMgr.Tiles.Grid.{tile_grid-tile}

abbrev tablet : Box
tablet = record { w = 656; h = 900 }

-- Five windows on a narrow tablet stand in two columns, the last alone in its row.
five :
    tile_grid 5 tablet
    ≡ record { left = 0; top = 0; width = 328; height = 300 }
      ∷ record { left = 328; top = 0; width = 328; height = 300 }
      ∷ record { left = 0; top = 300; width = 328; height = 300 }
      ∷ record { left = 328; top = 300; width = 328; height = 300 }
      ∷ record { left = 0; top = 600; width = 656; height = 300 }
      ∷ []
unfolding tile_grid
five = refl

-- Two windows on a portrait frame are stacked; three on a wide one stand side by side.
two_stacked : columns_of 2 tablet ≡ 1
unfolding columns_of
two_stacked = refl

three_wide : columns_of 3 (record { w = 1400; h = 900 }) ≡ 3
unfolding columns_of
three_wide = refl

room : tile_capacity tablet ≡ 8
unfolding tile_capacity
room = refl

tile_grid-tile_example : covering 400 700 (tile_grid 5 tablet) ≡ 1
tile_grid-tile_example = tile_grid-tile 5 tablet 400 700 (omega arith) (omega arith) (omega arith)
