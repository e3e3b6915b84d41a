-- ===== src/Base/Ints.antt =====
-- Integers over the native numbers: the operations and tests that coordinates on the screen need.
use Prim.Native.Nat.{ℕ, suc, ◌+◌, ◌-◌}
use mathlib.Core.Path.{◌≡◌}
use mathlib.Core.Bool.{Bool, true}
use native.Mathlib.Omega.{arith}
use vibetop.Base.Logic.{leb, if◌then◌else◌}

pub data ℤ : Type 0 where
  pos negsuc : ℕ → ℤ

abbrev pos_part : ℤ → ℕ
pos_part (pos n) = n
pos_part (negsuc n) = 0

abbrev neg_part : ℤ → ℕ
neg_part (pos n) = 0
neg_part (negsuc n) = suc n

abbrev difference : ℕ → ℕ → ℤ
difference a b = if leb b a then pos (a - b) else negsuc (b - a - 1)

infixl 65 ◌+ℤ◌ ◌-ℤ◌
unfoldable pub ◌+ℤ◌ : ℤ → ℤ → ℤ
a +ℤ b = difference (pos_part a + pos_part b) (neg_part a + neg_part b)

unfoldable pub ◌-ℤ◌ : ℤ → ℤ → ℤ
a -ℤ b = difference (pos_part a + neg_part b) (neg_part a + pos_part b)

unfoldable pub leb_ℤ : ℤ → ℤ → Bool
leb_ℤ a b = leb (pos_part a + neg_part b) (pos_part b + neg_part a)

infix 50 ◌≤ℤ◌
abbrev pub ◌≤ℤ◌ : ℤ → ℤ → Type 0
a ≤ℤ b = leb_ℤ a b ≡ true

unfoldable pub max_ℤ : ℤ → ℤ → ℤ
unfolding leb_ℤ
max_ℤ a b = if leb_ℤ a b then b else a

unfoldable pub min_ℤ : ℤ → ℤ → ℤ
unfolding leb_ℤ
min_ℤ a b = if leb_ℤ a b then a else b

pub le_refl_ℤ : (a : ℤ) → a ≤ℤ a
unfolding leb_ℤ
le_refl_ℤ a = ground arith

pub le_trans_ℤ : (a b c : ℤ) → a ≤ℤ b → b ≤ℤ c → a ≤ℤ c
unfolding leb_ℤ
le_trans_ℤ a b c h k = ground arith

le_antisymm_ℤ : (a b : ℤ) → a ≤ℤ b → b ≤ℤ a → a ≡ b
unfolding leb_ℤ
le_antisymm_ℤ (pos a) (pos b) h k = ground arith
le_antisymm_ℤ (pos a) (negsuc b) h k = ground arith
le_antisymm_ℤ (negsuc a) (pos b) h k = ground arith
le_antisymm_ℤ (negsuc a) (negsuc b) h k = ground arith

-- Moving a term to the other side of a comparison.
pub le-sub_iff : (a b c : ℤ) → leb_ℤ a (b -ℤ c) ≡ leb_ℤ (a +ℤ c) b
unfolding leb_ℤ ◌+ℤ◌ ◌-ℤ◌
le-sub_iff a b c = ground arith

pub add-sub_cancel : (a b : ℤ) → a +ℤ b -ℤ b ≡ a
unfolding ◌+ℤ◌ ◌-ℤ◌
add-sub_cancel (pos a) b = ground arith
add-sub_cancel (negsuc a) b = ground arith

-- Where a bound is in reach, `max lo (min x hi)` lies between the bounds.
pub clamp_lower : (lo x hi : ℤ) → lo ≤ℤ max_ℤ lo (min_ℤ x hi)
unfolding leb_ℤ max_ℤ min_ℤ
clamp_lower lo x hi = ground arith

pub clamp_upper : (lo x hi : ℤ) → lo ≤ℤ hi → max_ℤ lo (min_ℤ x hi) ≤ℤ hi
unfolding leb_ℤ max_ℤ min_ℤ
clamp_upper lo x hi h = ground arith

pub clamp_inside : (lo x hi : ℤ) → lo ≤ℤ x → x ≤ℤ hi → max_ℤ lo (min_ℤ x hi) ≡ x
unfolding max_ℤ min_ℤ
clamp_inside lo x hi h k = ground (arith, le_antisymm_ℤ lo x)
