-- ===== src/Shell/WinMgr/Tiles/Width.antt =====
-- The tiles of the even grid are never narrower than the smallest window.
use native.Mathlib.Nat.{div-mul-le_self, mul-div-le, mul-le-mul_right, mul_comm, le-div_iff_mul-le}
use vibetop.Base.{ℕ, zero, suc, ◌+◌, ◌*◌, ◌/◌, ◌%◌, ◌≤◌, ◌<◌, min, max, arith, List, [], ◌∷◌}
use vibetop.Shell.WinMgr.Layouts.{Box, Geom, minw}
use vibetop.Shell.WinMgr.Tiles.{
  row_items, slot_size, tile, tiles_from, tile_grid, columns_of, or_one, asked_columns,
}
use vibetop.Shell.WinMgr.Tiles.Slots.{mul_step}
use vibetop.Shell.WinMgr.Tiles.Grid.{placed, items_some, items_few}

pub AllWide : List Geom → Type 0
AllWide [] = Unit
AllWide (g ∷ gs) = (minw ≤ g.width) × AllWide gs

slot_size_le : (l m j : ℕ) → j < m → l / m ≤ slot_size l m j
slot_size_le l m j less =
    let step : j * (l / m) + l / m ≤ m * (l / m) = mul_step (l / m) less in
    let fits : m * (l / m) ≤ l = mul-div-le l m in ground arith

at_most : (a q : ℕ) → 1 ≤ q → max 1 (min a (or_one q)) ≤ q
at_most a (suc q) h = omega arith
at_most a zero h = ground arith

-- A number of columns that the frame can hold.
columns_fit : (n : ℕ) (box : Box) → minw ≤ box.w → columns_of n box * minw ≤ box.w
unfolding columns_of
columns_fit n box h =
    let q = box.w / minw in
    let some_column : 1 ≤ q = (le-div_iff_mul-le (omega arith)).1 (omega arith) in
    let few : columns_of n box * minw ≤ q * minw =
      mul-le-mul_right minw (at_most (asked_columns n box) q some_column) in
    omega (arith, div-mul-le_self box.w minw)

tile_wide :
    (n cols : ℕ) (box : Box) (i : ℕ)
    → 1 ≤ n
    → 1 ≤ cols
    → cols * minw ≤ box.w
    → i < n
    → minw ≤ (tile n cols box i).width
unfolding tile
tile_wide n cols box i one h fits less =
    let m = row_items n cols (i / cols) in
    let few : m * minw ≤ cols * minw = mul-le-mul_right minw (items_few n cols (i / cols) one h) in
    let wide : minw ≤ box.w / m =
      (le-div_iff_mul-le (items_some n cols (i / cols) one h)).1 (omega (arith, mul_comm minw m)) in
    omega (arith, slot_size_le box.w m (i % cols) (placed n cols i h less).1)

tiles_wide :
    (n cols : ℕ) (box : Box) (i k : ℕ)
    → 1 ≤ cols
    → cols * minw ≤ box.w
    → i + k ≤ n
    → AllWide (tiles_from n cols box i k)
unfolding AllWide tiles_from
tiles_wide n cols box i zero h fits less = tt
tiles_wide n cols box i (suc k) h fits less = (
  tile_wide n cols box i (omega arith) h fits (omega arith),
  tiles_wide n cols box (i + 1) k h fits (omega arith),
)

-- On a frame at least as wide as the smallest window, no tile is narrower than that, however many
-- windows there are.
tile_grid-AllWide : (n : ℕ) (box : Box) → minw ≤ box.w → AllWide (tile_grid n box)
unfolding tile_grid columns_of
tile_grid-AllWide n box h =
    tiles_wide n (columns_of n box) box 0 n (ground arith) (columns_fit n box h) (omega arith)
