-- ===== src/Shell/WinMgr/Tiles.antt =====
-- shell/winmgr.js: `tileGrid` and `tileCapacity`, the even grid of windows. `Math.ceil(Math.sqrt(n))`
-- is the least number whose square reaches `n`, found by counting up to `n`.
pub mod Slots
pub mod Grid
pub mod Width
mod Tests
use vibetop.Base.{
  ℕ, zero, suc, ◌+◌, ◌-◌, ◌*◌, ◌/◌, ◌%◌, min, max, Bool, true, false, ◌&&◌, List, [], ◌∷◌,
  if◌then◌else◌, ◌==◌, ltb, leb,
}
use vibetop.Shell.WinMgr.Layouts.{Box, Geom, minw, minh}

-- The least number from `c` on whose square reaches `n`, within `fuel` steps.
ceil_sqrt_from : (fuel c n : ℕ) → ℕ
ceil_sqrt_from zero c n = c
ceil_sqrt_from (suc fuel) c n =
    let next = ceil_sqrt_from fuel (c + 1) n in if leb n (c * c) then c else next

ceil_sqrt : ℕ → ℕ
unfolding ceil_sqrt_from
ceil_sqrt n = ceil_sqrt_from n 0 n

-- `x || 1`
abbrev pub or_one : ℕ → ℕ
or_one zero = 1
or_one (suc n) = suc n

-- The columns that the number of windows and the shape of the frame ask for.
pub asked_columns : ℕ → Box → ℕ
unfolding ceil_sqrt
asked_columns n box =
    let cols = ceil_sqrt n in
    let two = if n == 2 && ltb box.w box.h then 1 else cols in
    if n == 3
    then if leb (3 * minw) box.w && ltb box.h box.w then 3 else if ltb box.w box.h then 1 else two
    else two

pub columns_of : ℕ → Box → ℕ
unfolding asked_columns
columns_of n box = max 1 (min (asked_columns n box) (or_one (box.w / minw)))

-- `Math.ceil(n / cols)`
abbrev pub rows_of : (n cols : ℕ) → ℕ
rows_of n cols = (n + cols - 1) / cols

-- How many windows stand in a row: the last row may have fewer.
abbrev pub row_items : (n cols r : ℕ) → ℕ
row_items n cols r =
    let rows = rows_of n cols in if r == rows - 1 then n - cols * (rows - 1) else cols

-- The start and the size of slot `j` of `m` slots on a length: the last one takes what is left.
abbrev pub slot_size : (length m j : ℕ) → ℕ
slot_size length m j = if j == m - 1 then length - j * (length / m) else length / m

pub tile : ℕ → (cols : ℕ) → Box → (i : ℕ) → Geom
tile n cols box i =
    let r = i / cols in
    let c = i % cols in
    let items = row_items n cols r in
    let rows = rows_of n cols in
    record {
      left = c * (box.w / items);
      top = r * (box.h / rows);
      width = slot_size box.w items c;
      height = slot_size box.h rows r;
    }

-- The `count` tiles from number `i` on.
pub tiles_from : ℕ → (cols : ℕ) → Box → (i count : ℕ) → List Geom
unfolding tile
tiles_from n cols box i zero = []
tiles_from n cols box i (suc count) = tile n cols box i ∷ tiles_from n cols box (i + 1) count

pub tile_grid : ℕ → Box → List Geom
unfolding tiles_from columns_of
tile_grid n box = tiles_from n (columns_of n box) box 0 n

pub tile_capacity : Box → ℕ
tile_capacity box = max 1 (or_one (box.w / minw)) * max 1 (or_one (box.h / minh))
