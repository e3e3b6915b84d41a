-- ===== src/Shell/WinMgr/Tiles/Slots.antt =====
-- One axis of the grid: each pixel of a length lies in exactly one slot.
use native.Mathlib.Nat.{div-mul-le_self, lt-div-mul-add, mul-le-mul_right, mul-div-le}
use vibetop.Base.{
  ℕ, ◌+◌, ◌-◌, ◌*◌, ◌/◌, ◌≤◌, ◌<◌, ◌≡◌, inl, inr, min, Bool, ◌&&◌, if◌then◌else◌, ◌==◌, ltb, leb,
  arith, Bool-cases, leb→le,
}
use vibetop.Shell.WinMgr.Tiles.{slot_size}

-- Whether the pixel `x` lies in slot `j`.
abbrev pub in_slot : (length m x j : ℕ) → Bool
in_slot length m x j = leb (j * (length / m)) x && ltb x (j * (length / m) + slot_size length m j)

-- The slot of a pixel.
abbrev pub slot_of : (length m x : ℕ) → ℕ
slot_of length m x = if length / m == 0 then m - 1 else min (x / (length / m)) (m - 1)

pub one_more : (i q : ℕ) → (i + 1) * q ≡ i * q + q
one_more i q = ground arith

-- The multiples of a number keep the order.
pub mul_step : {i j : ℕ} (q : ℕ) → i < j → i * q + q ≤ j * q
mul_step {i} {j} q h =
    omega (arith, mul-le-mul_right {m = i + 1} {n = j} q (omega arith), one_more i q)

before_iff : (q x j : ℕ) → 1 ≤ q → leb (j * q) x ≡ leb j (x / q)
before_iff q x j pos = elim (Bool-cases (leb j (x / q))) [
  | inl up ↦
      let less : j * q ≤ x / q * q = mul-le-mul_right q (leb→le j (x / q) up) in
      ground (arith, div-mul-le_self x q)
  | inr down ↦
      let more : x / q * q + q ≤ j * q = mul_step q (ground arith) in
      ground (arith, lt-div-mul-add {a = x} pos)
]

-- Slots of one size, before the last takes the rest.
even_slot :
    (q m x j l : ℕ)
    → 1 ≤ q
    → m * q ≤ l
    → x < l
    → j < m
    → (leb (j * q) x && ltb x (j * q + (if j == m - 1 then l - j * q else q)))
      ≡ (j == min (x / q) (m - 1))
even_slot q m x j l pos fits inside less =
    let here = before_iff q x j pos in
    let next = before_iff q x (j + 1) pos in
    let step : (j + 1) * q ≡ j * q + q = one_more j q in
    let room : j * q + q ≤ m * q = mul_step q less in ground (arith, step, room)

-- Where the slots have no size, the last one takes all.
flat_slot :
    (m x j l : ℕ)
    → x < l
    → j < m
    → (leb (j * 0) x && ltb x (j * 0 + (if j == m - 1 then l - j * 0 else 0))) ≡ (j == m - 1)
flat_slot m x j l inside less = ground arith

-- A pixel lies in its slot and in no other.
pub in_slot_iff : (l m x j : ℕ) → x < l → j < m → in_slot l m x j ≡ (j == slot_of l m x)
in_slot_iff l m x j inside less = elim (Bool-cases (l / m == 0)) [
  | inl flat ↦
      let none_left : l / m ≡ 0 = ground arith in rw none_left (flat_slot m x j l inside less)
  | inr even ↦
      let fits : m * (l / m) ≤ l = mul-div-le l m in
      ground (arith, even_slot (l / m) m x j l (ground arith) fits inside less)
]

pub slot_of_less : (l m x : ℕ) → 1 ≤ m → slot_of l m x < m
slot_of_less l m x h = ground arith
