-- ===== src/Files/Grid/Tests.antt =====
-- Steps over a concrete grid, and the theorems there.
use vibetop.Base.{◌≡◌, refl, some}
use vibetop.Files.Grid.{down, grid_step}

-- Down from above a short last line lands on its last tile.
short_line : grid_step (some 4) down 3 7 ≡ some 6
unfolding grid_step
short_line = refl
