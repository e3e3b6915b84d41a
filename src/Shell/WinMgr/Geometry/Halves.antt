-- ===== src/Shell/WinMgr/Geometry/Halves.antt =====
-- The two halves that a drag to a side snaps to.
use vibetop.Base.{◌≡◌, refl, false, Option, some, ℤ, pos, negsuc, ◌+ℤ◌, ◌-ℤ◌, leb_ℤ, ◌≤ℤ◌, arith}
use vibetop.Shell.WinMgr.Geometry.{Box, Geom, far, snap_target}

-- Side by side between the margins, on the same rows.
abbrev pub Meet : Box → ℤ → Option Geom → Option Geom → Type 0
Meet box m (some a) (some b) =
    (a.left ≡ m)
    × (a.left +ℤ a.width ≡ b.left)
    × (b.left +ℤ b.width ≡ far (pos box.w) m)
    × (a.top ≡ b.top)
    × (a.height ≡ b.height)
Meet box m _ _ = ⊥

add_sub : (a b : ℤ) → a +ℤ (b -ℤ a) ≡ b
unfolding ◌+ℤ◌ ◌-ℤ◌
add_sub a (pos b) = ground arith
add_sub a (negsuc b) = ground arith

-- A drag to the left side and one to the right side snap to two halves: the first begins at the left
-- margin, the second begins where the first ends, and ends at the right margin, on the same rows.
snap_target-Meet :
    (px qx : ℤ) (box : Box) (edge m : ℤ)
    → px ≤ℤ edge
    → leb_ℤ qx edge ≡ false
    → pos box.w -ℤ edge ≤ℤ qx
    → Meet box m (snap_target px box edge m) (snap_target qx box edge m)
unfolding snap_target
snap_target-Meet px qx box edge m left inner right =
    rw (left, inner, right) (refl, add_sub _ _, add_sub _ _, refl, refl)
