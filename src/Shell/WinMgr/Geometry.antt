-- ===== src/Shell/WinMgr/Geometry.antt =====
-- shell/winmgr.js: `clampGeom`, `resizeGeom` and `snapTarget`. Coordinates are whole pixels, on which
-- `Math.round` is the identity; the optional arguments are there, with their defaults filled in.
pub mod Inside
pub mod Edges
pub mod Halves
mod Tests
use vibetop.Base.{
  ℕ, ◌+◌, ◌/◌, Bool, true, false, Option, none, some, if◌then◌else◌, ℤ, pos, ◌+ℤ◌, ◌-ℤ◌, leb_ℤ,
  max_ℤ, min_ℤ, not,
}

pub record Box : Type 0 where
  pub w : ℕ
  pub h : ℕ

pub record Geom : Type 0 where
  pub left : ℤ
  pub top : ℤ
  pub width : ℤ
  pub height : ℤ

-- The smallest size of a window and the margin that it keeps from the frame.
pub record Limits : Type 0 where
  pub minw : ℤ
  pub minh : ℤ
  pub m : ℤ

-- `box - m`, the far end of the room for windows.
abbrev pub far : ℤ → ℤ → ℤ
far box m = box -ℤ m

-- `Math.max(min, Math.min(size, box - 2 * m))`
pub clamp_size : (min m box size : ℤ) → ℤ
unfolding max_ℤ min_ℤ ◌-ℤ◌
clamp_size min m box size = max_ℤ min (min_ℤ size (far box m -ℤ m))

-- `Math.max(m, Math.min(start, box - m - size))`
pub clamp_start : (m box size start : ℤ) → ℤ
unfolding max_ℤ min_ℤ ◌-ℤ◌
clamp_start m box size start = max_ℤ m (min_ℤ start (far box m -ℤ size))

pub clamp_geom : Geom → Box → Limits → Geom
unfolding clamp_size clamp_start
clamp_geom g box l =
    let w = clamp_size l.minw l.m (pos box.w) g.width in
    let h = clamp_size l.minh l.m (pos box.h) g.height in
    record {
      left = clamp_start l.m (pos box.w) w g.left;
      top = clamp_start l.m (pos box.h) h g.top;
      width = w;
      height = h;
    }

-- The edges that a drag moves: the letters in `dir`.
pub record Dir : Type 0 where
  pub n : Bool
  pub s : Bool
  pub e : Bool
  pub w : Bool

-- Start and size along one axis.
pub record Span : Type 0 where
  pub start : ℤ
  pub size : ℤ

abbrev pub span : ℤ → ℤ → Span
span a n = record { start = a; size = n }

-- The far edge moves by `d`.
abbrev move_far : Bool → ℤ → Span → Span
move_far true d x = span x.start (x.size +ℤ d)
move_far false d x = x

-- The near edge moves by `d`: both values are taken from the span of the beginning.
abbrev move_near : Bool → ℤ → Span → Span → Span
move_near true d first x = span (first.start +ℤ d) (first.size -ℤ d)
move_near false d first x = x

-- Below the smallest size, the moving edge is pinned.
abbrev pin : Bool → ℤ → Span → Span
pin near min x =
    if leb_ℤ min x.size then x else span (if near then x.start -ℤ (min -ℤ x.size) else x.start) min

pub resize_span : (far near : Bool) → (d min : ℤ) → Span → Span
unfolding leb_ℤ ◌+ℤ◌ ◌-ℤ◌
resize_span far near d min x = pin near min (move_near near d x (move_far far d x))

pub resize_geom : Geom → Dir → (dx dy : ℤ) → Box → Limits → Geom
unfolding resize_span clamp_geom
resize_geom g dir dx dy box l =
    let x = resize_span dir.e dir.w dx l.minw (span g.left g.width) in
    let y = resize_span dir.s dir.n dy l.minh (span g.top g.height) in
    clamp_geom (record { left = x.start; top = y.start; width = x.size; height = y.size }) box l

-- The half of the frame that a drag to within `edge` of its left or right side snaps to.
pub snap_target : (px : ℤ) → Box → (edge m : ℤ) → Option Geom
unfolding leb_ℤ ◌-ℤ◌
snap_target px box edge m =
    let half = (box.w + 1) / 2 in
    if leb_ℤ px edge
    then some (record { left = m; top = m; width = pos half -ℤ m; height = far (pos box.h) m -ℤ m })
    else if leb_ℤ (pos box.w -ℤ edge) px
    then some (record {
      left = pos half;
      top = m;
      width = far (pos box.w) m -ℤ pos half;
      height = far (pos box.h) m -ℤ m;
    })
    else none
