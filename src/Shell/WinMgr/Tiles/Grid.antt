-- ===== src/Shell/WinMgr/Tiles/Grid.antt =====
-- The tiles of the even grid tile the frame.
use native.Mathlib.Nat.{
  mod-lt, div-add-mod', div-mul-le_self, lt-div-mul-add, mul-le-mul_right, mul_comm,
}
use vibetop.Base.{
  ℕ, zero, suc, ◌+◌, ◌-◌, ◌*◌, ◌/◌, ◌%◌, ◌≤◌, ◌<◌, ◌≡◌, inl, inr, sym, ◌∙◌, ap, ◌&&◌, if◌then◌else◌,
  ◌==◌, ltb, leb, arith, Bool-cases,
}
use vibetop.Shell.WinMgr.Layouts.{Box, Geom}
use vibetop.Shell.WinMgr.Layouts.Tiling.{covers, covering}
use vibetop.Shell.WinMgr.Tiles.{rows_of, row_items, tile, tiles_from, tile_grid, columns_of}
use vibetop.Shell.WinMgr.Tiles.Slots.{
  in_slot, slot_of, in_slot_iff, slot_of_less, mul_step, one_more,
}

-- A row and a column determine the number of a tile.
same_place : (a b c d k : ℕ) → b < k → d < k → (a * k + b == c * k + d) ≡ (b == d && a == c)
same_place a b c d k h g = elim (Bool-cases (ltb a c)) [
  | inl before ↦ let step : a * k + k ≤ c * k = mul_step k (ground arith) in ground arith
  | inr not_before ↦ elim (Bool-cases (ltb c a)) [
    | inl after ↦ let step : c * k + k ≤ a * k = mul_step k (ground arith) in ground arith
    | inr not_after ↦
        let equal : a ≡ c = ground arith in
        let level : a * k ≡ c * k = ap (λ i. i * k) equal in ground arith
  ]
]

-- The rows hold all the tiles, and the rows before the last do not.
rows_enough : (n cols : ℕ) → 1 ≤ cols → n ≤ rows_of n cols * cols
rows_enough n cols h = omega (arith, lt-div-mul-add {a = n + cols - 1} {b = cols} h)

rows_some : (n cols : ℕ) → 1 ≤ n → 1 ≤ cols → 1 ≤ rows_of n cols
rows_some n cols one h = elim (Bool-cases (rows_of n cols == 0)) [
  | inl zero_rows ↦
      let rows : rows_of n cols ≡ 0 = ground arith in
      let flat : rows_of n cols * cols ≡ 0 * cols = ap (λ r. r * cols) rows in
      omega (arith, rows_enough n cols h)
  | inr rows ↦ ground arith
]

rows_tight : (n cols : ℕ) → 1 ≤ n → 1 ≤ cols → (rows_of n cols - 1) * cols < n
rows_tight n cols one h =
    let rows = rows_of n cols in
    let some_row : 1 ≤ rows = rows_some n cols one h in
    let step : (rows - 1) * cols + cols ≤ rows * cols = mul_step cols (omega arith) in
    omega (arith, div-mul-le_self (n + cols - 1) cols)

-- What the numbers of a grid satisfy for the tile `i`.
abbrev pub Placed : (n cols i : ℕ) → Type 0
Placed n cols i =
    (i / cols < rows_of n cols) × (i % cols < row_items n cols (i / cols)) × (i % cols < cols)

pub placed : (n cols i : ℕ) → 1 ≤ cols → i < n → Placed n cols i
placed n cols i h less =
    let rows = rows_of n cols in
    let r = i / cols in
    let c : i % cols < cols = mod-lt i h in
    let i_is : r * cols + i % cols ≡ i = div-add-mod' i cols in
    let enough = rows_enough n cols h in
    let row : r < rows = elim (Bool-cases (ltb r rows)) [
      | inl before ↦ ground arith
      | inr beyond ↦
          let more : rows * cols ≤ r * cols = mul-le-mul_right cols (ground arith) in omega arith
    ] in
    let last : r ≡ rows - 1 → r * cols ≡ (rows - 1) * cols = ap (λ j. j * cols) in
    (row, ground (arith, mul_comm cols (rows - 1)), c)

pub items_some : (n cols r : ℕ) → 1 ≤ n → 1 ≤ cols → 1 ≤ row_items n cols r
items_some n cols r one h =
    ground (arith, rows_tight n cols one h, mul_comm cols (rows_of n cols - 1))

pub items_few : (n cols r : ℕ) → 1 ≤ n → 1 ≤ cols → row_items n cols r ≤ cols
items_few n cols r one h =
    let rows = rows_of n cols in
    let some_row : 1 ≤ rows = rows_some n cols one h in
    let whole : rows - 1 + 1 ≡ rows = omega arith in
    let step : (rows - 1) * cols + cols ≡ rows * cols =
      sym (one_more (rows - 1) cols) ∙ ap (λ q. q * cols) whole in
    ground (arith, rows_enough n cols h, mul_comm cols (rows - 1))

-- The tile of a pixel.
abbrev place_of : (n cols : ℕ) → Box → (x y : ℕ) → ℕ
place_of n cols box x y =
    let r = slot_of box.h (rows_of n cols) y in r * cols + slot_of box.w (row_items n cols r) x

place_of_less : (n cols : ℕ) (box : Box) (x y : ℕ) → 1 ≤ n → 1 ≤ cols → place_of n cols box x y < n
place_of_less n cols box x y one h =
    let rows = rows_of n cols in
    let r = slot_of box.h rows y in
    let c = slot_of box.w (row_items n cols r) x in
    let row : r < rows = slot_of_less box.h rows y (rows_some n cols one h) in
    let column : c < row_items n cols r =
      slot_of_less box.w (row_items n cols r) x (items_some n cols r one h) in
    elim (Bool-cases (r == rows - 1)) [
      | inl last ↦
          let level : r * cols ≡ (rows - 1) * cols = ap (λ j. j * cols) (ground arith) in
          ground (arith, mul_comm cols (rows - 1))
      | inr earlier ↦
          let step : r * cols + cols ≤ (rows - 1) * cols = mul_step cols (ground arith) in
          ground (arith, rows_tight n cols one h)
    ]

covers_axes :
    (x y : ℕ) (g : Geom)
    → covers x y g
      ≡ ((leb g.left x && ltb x (g.left + g.width)) && (leb g.top y && ltb y (g.top + g.height)))
covers_axes x y g = ground arith

-- In the row of the pixel, the column is that of the pixel.
same_column :
    (n cols : ℕ) (box : Box) (x c r R : ℕ)
    → (c == slot_of box.w (row_items n cols r) x && r == R)
      ≡ (c == slot_of box.w (row_items n cols R) x && r == R)
same_column n cols box x c r R = elim (Bool-cases (r == R)) [
  | inl same_row ↦
      let equal : r ≡ R = ground arith in
      ap (λ j. c == slot_of box.w (row_items n cols j) x && r == R) equal
  | inr other ↦ ground arith
]

tile-covers :
    (n cols : ℕ) (box : Box) (x y i : ℕ)
    → 1 ≤ n
    → 1 ≤ cols
    → x < box.w
    → y < box.h
    → i < n
    → covers x y (tile n cols box i) ≡ (i == place_of n cols box x y)
unfolding tile
tile-covers n cols box x y i one h hx hy less =
    let rows = rows_of n cols in
    let r = i / cols in
    let c = i % cols in
    let R = slot_of box.h rows y in
    let C = slot_of box.w (row_items n cols R) x in
    let (row, column, small) = placed n cols i h less in
    let few : C < cols = omega (
      arith,
      slot_of_less box.w (row_items n cols R) x (items_some n cols R one h),
      items_few n cols R one h,
    ) in
    covers_axes x y (tile n cols box i)
    ∙ ap (λ b. b && in_slot box.h rows y r) (in_slot_iff box.w (row_items n cols r) x c hx column)
    ∙ ap (λ b. c == slot_of box.w (row_items n cols r) x && b) (in_slot_iff box.h rows y r hy row)
    ∙ same_column n cols box x c r R
    ∙ sym (same_place r c R C cols small few)
    ∙ ap (λ j. j == R * cols + C) (div-add-mod' i cols)

-- How often the numbers from `i` on hit `s`.
covering_range :
    (n cols : ℕ) (box : Box) (x y s i k : ℕ)
    → ((j : ℕ) → j < i + k → covers x y (tile n cols box j) ≡ (j == s))
    → covering x y (tiles_from n cols box i k) ≡ (if leb i s && ltb s (i + k) then 1 else 0)
unfolding covering tiles_from
covering_range n cols box x y s i zero h = ground arith
covering_range n cols box x y s i (suc k) h =
    let rest = covering_range n cols box x y s (i + 1) k (λ j less. h j (omega arith)) in
    rw (h i (omega arith), rest) (ground arith)

hit : (s n : ℕ) → s < n → ◌≡◌ {A = ℕ} (if leb 0 s && ltb s (0 + n) then 1 else 0) 1
hit s n h = ground arith

-- Each pixel of the frame lies in exactly one of the tiles of a grid of one window or more: the tiles
-- do not overlap and leave no gap.
pub tile_grid-tile :
    (n : ℕ) (box : Box) (x y : ℕ)
    → 1 ≤ n
    → x < box.w
    → y < box.h
    → covering x y (tile_grid n box) ≡ 1
unfolding tile_grid columns_of
tile_grid-tile n box x y one hx hy =
    let cols = columns_of n box in
    let some_columns : 1 ≤ cols = ground arith in
    let s = place_of n cols box x y in
    let less : s < n = place_of_less n cols box x y one some_columns in
    covering_range n cols box x y s 0 n
      (λ j h. tile-covers n cols box x y j one some_columns hx hy (omega arith))
    ∙ hit s n less
