-- ===== src/Files/Grid.antt =====
-- apps/everyday/files/filesx-core.js: `gridStep`, the step of an arrow key over a listing of `n` tiles
-- in lines of `cols`. No selection, -1 in the source, is `none`.
mod Tests
use native.Mathlib.Nat.{add-div_right, div-mul-le_self, le-div_iff_mul-le}
use vibetop.Base.{
  ℕ, zero, suc, ◌+◌, ◌-◌, ◌*◌, ◌/◌, ◌≤◌, ◌<◌, ◌≡◌, refl, min, max, Bool, true, false, Option, none,
  some, if◌then◌else◌, ◌==◌, ltb, leb, arith,
}

pub data Key : Type 0 where
  left right up down : Key
  other_key : Key

-- The step from tile `i`, which is there, with one column or more.
step_from : (i : ℕ) → Key → (cols n : ℕ) → ℕ
step_from i left cols n = i - 1
step_from i right cols n = min (n - 1) (i + 1)
step_from i up cols n = if i / cols == 0 then i else i - cols
step_from i down cols n = if i / cols == (n - 1) / cols then i else min (n - 1) (i + cols)
step_from i other_key cols n = i

pub grid_step : Option ℕ → Key → (cols n : ℕ) → Option ℕ
unfolding step_from
grid_step i key cols zero = none
grid_step none key cols (suc n) = some 0
grid_step (some i) key cols (suc n) = some (step_from (min i n) key (max 1 cols) (suc n))

-- Where there are tiles, a step selects one of them.
grid_step_less :
    (i : Option ℕ) (key : Key) (cols n : ℕ)
    → 1 ≤ n
    → (j : ℕ) × (grid_step i key cols n ≡ some j) × (j < n)
unfolding grid_step
grid_step_less i key cols zero h = ground arith
grid_step_less none key cols (suc n) h = (0, refl, omega arith)
grid_step_less (some i) left cols (suc n) h = (_, refl, omega arith)
grid_step_less (some i) right cols (suc n) h = (_, refl, omega arith)
grid_step_less (some i) up cols (suc n) h = (_, refl, ground arith)
grid_step_less (some i) down cols (suc n) h = (_, refl, ground arith)
grid_step_less (some i) other_key cols (suc n) h = (_, refl, omega arith)

one_more : (j k : ℕ) → (j + 1) * k ≡ j * k + k
one_more j k = ground arith

next_line : (i cols : ℕ) → 1 ≤ cols → (i + cols) / cols ≡ i / cols + 1
next_line i cols h = add-div_right i h

-- Where there is a tile right below, a step down and a step up lead back, and so do a step right and
-- a step left.
grid_step_back :
    (i cols n : ℕ)
    → i + max 1 cols < n
    → (grid_step (grid_step (some i) down cols n) up cols n ≡ some i)
      × (grid_step (grid_step (some i) right cols n) left cols n ≡ some i)
unfolding grid_step
grid_step_back i cols zero h = ground arith
grid_step_back i cols (suc n) h =
    let k = max 1 cols in
    let here : min i n ≡ i = omega arith in
    let line = next_line i k (omega arith) in
    let below : i / k + 1 ≤ n / k =
      (le-div_iff_mul-le (omega arith)).1
        (omega (arith, div-mul-le_self i k, one_more (i / k) k)) in
    ground arith
