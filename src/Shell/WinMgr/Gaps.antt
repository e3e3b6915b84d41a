-- ===== src/Shell/WinMgr/Gaps.antt =====
-- shell/winmgr.js: `gapZones`, the gaps between the zones of a layout. An inner edge moves by half the gap, which may be half
-- a pixel, so edges are counted in half pixels before `Math.round`; a width may be negative in a frame that is too small.
mod Tests
use vibetop.Base.{
  ℕ, ◌+◌, ◌-◌, ◌*◌, ◌/◌, ◌%◌, ◌≤◌, ◌<◌, ◌≡◌, refl, ap, sym, ◌∙◌, Bool, true, false, List, map,
  if◌then◌else◌, leb, ◌==◌, ℤ, pos, negsuc, ◌+ℤ◌, arith,
}
use vibetop.Shell.WinMgr.Layouts.{Box, Geom}

-- A zone with its gaps.
pub record Placed : Type 0 where
  pub left : ℤ
  pub top : ℤ
  pub width : ℤ
  pub height : ℤ

-- `Math.round` of half the difference of two numbers.
pub round_half : ℕ → ℕ → ℤ
round_half a b =
    let d = b - a in
    if leb b a then pos ((a - b + 1) / 2) else if d / 2 == 0 then pos 0 else negsuc (d / 2 - 1)

-- An edge in half pixels, as a number and one to take away: an outer edge is moved by the margin, an inner one by
-- half the gap.
abbrev pub near_edge : (margin gap start : ℕ) → ℕ
near_edge margin gap start = if start == 0 then 2 * margin else 2 * start + gap

abbrev pub far_edge : (box margin gap end : ℕ) → ℕ × ℕ
far_edge box margin gap end = if leb box end then (2 * box, 2 * margin) else (2 * end, gap)

-- One axis: the start and the size.
pub gap_axis : (box margin gap start size : ℕ) → ℤ × ℤ
unfolding round_half
gap_axis box margin gap start size =
    let near = near_edge margin gap start in
    let far = far_edge box margin gap (start + size) in
    (round_half near 0, round_half far.0 (far.1 + near))

pub gap_zone : Box → (margin gap : ℕ) → Geom → Placed
unfolding gap_axis
gap_zone box margin gap z =
    let (left, width) = gap_axis box.w margin gap z.left z.width in
    let (top, height) = gap_axis box.h margin gap z.top z.height in
    record { left = left; top = top; width = width; height = height }

abbrev pub gap_zones : Box → (margin gap : ℕ) → List Geom → List Placed
gap_zones box margin gap zones = map (gap_zone box margin gap) zones

abbrev pub end_of : ℤ × ℤ → ℤ
end_of x = x.0 +ℤ x.1

-- One axis of two zones `a` and `b`.
pub record Seams (box margin gap : ℕ) (a n b m : ℕ) (a' b' : ℤ × ℤ) : Type 0 where
  pub first : a ≡ 0 → a'.0 ≡ pos margin
  pub seam : a + n ≡ b → 0 < b → b < box → end_of a' +ℤ pos gap ≡ b'.0
  pub whole : b ≡ 0 → box ≤ b + m → margin ≤ box → end_of b' +ℤ pos margin ≡ pos box
  pub last : 0 < b → box ≤ b + m → margin ≤ box → end_of b' +ℤ pos margin ≡ pos (box + gap % 2)

gap_axis-Seams :
    (box margin gap a n b m : ℕ)
    → Seams box margin gap a n b m (gap_axis box margin gap a n) (gap_axis box margin gap b m)
unfolding gap_axis ◌+ℤ◌
gap_axis-Seams box margin gap a n b m = record {
  first = λ e. ground (arith, e);
  seam = λ meet inner inside. ground (arith, meet, inner, inside);
  whole = λ e outer fits. ground (arith, e, outer, fits);
  last = λ inner outer fits. ground (arith, inner, outer, fits);
}

abbrev pub across : Placed → ℤ × ℤ
across z = (z.left, z.width)

abbrev pub down : Placed → ℤ × ℤ
down z = (z.top, z.height)

-- With a gap between the zones of a layout, on each axis: a zone at the near end of the frame begins at the margin; two
-- zones that meet inside the frame are just the gap apart, also where half the gap is half a pixel; a zone that fills
-- the frame keeps the margin at both ends; and one that reaches the far end from inside keeps it there where the
-- gap is even, and is a pixel too long where it is odd.
pub gap_zone-Seams :
    (box : Box) (margin gap : ℕ) (a b : Geom)
    → Seams box.w margin gap a.left a.width b.left b.width
        (across (gap_zone box margin gap a))
        (across (gap_zone box margin gap b))
      × Seams box.h margin gap a.top a.height b.top b.height
          (down (gap_zone box margin gap a))
          (down (gap_zone box margin gap b))
unfolding gap_zone
gap_zone-Seams box margin gap a b = (
  gap_axis-Seams box.w margin gap a.left a.width b.left b.width,
  gap_axis-Seams box.h margin gap a.top a.height b.top b.height,
)
