-- ===== src/Shell/WinMgr/Geometry/Inside.antt =====
-- A clamped window lies within the margins of the frame, and stays where it is when clamped again.
use vibetop.Base.{
  ◌≡◌, refl, sym, ◌∙◌, ℤ, pos, ◌+ℤ◌, ◌-ℤ◌, leb_ℤ, ◌≤ℤ◌, le_trans_ℤ, le-sub_iff, clamp_lower,
  clamp_upper, clamp_inside, arith,
}
use vibetop.Shell.WinMgr.Geometry.{Box, Geom, Limits, far, clamp_size, clamp_start, clamp_geom}

-- One axis: at least the smallest size, and between the margins.
abbrev pub IsWithin : (min m box start size : ℤ) → Type 0
IsWithin min m box start size = (min ≤ℤ size) × (m ≤ℤ start) × (start +ℤ size ≤ℤ far box m)

abbrev pub IsInside : Geom → Box → Limits → Type 0
IsInside g box l =
    IsWithin l.minw l.m (pos box.w) g.left g.width × IsWithin l.minh l.m (pos box.h) g.top g.height

-- The frame has room for the smallest window between its margins.
abbrev pub HasRoom : Box → Limits → Type 0
HasRoom box l = (l.minw ≤ℤ far (pos box.w) l.m -ℤ l.m) × (l.minh ≤ℤ far (pos box.h) l.m -ℤ l.m)

sub_swap : (a b c : ℤ) → a ≤ℤ c -ℤ b → b ≤ℤ c -ℤ a
unfolding leb_ℤ ◌-ℤ◌
sub_swap a b c h = ground arith

clamp-IsWithin :
    (min m box size start : ℤ)
    → min ≤ℤ far box m -ℤ m
    → let n = clamp_size min m box size in IsWithin min m box (clamp_start m box n start) n
unfolding clamp_size clamp_start
clamp-IsWithin min m box size start room =
    let n = clamp_size min m box size in
    let fits : n ≤ℤ far box m -ℤ m = clamp_upper min size (far box m -ℤ m) room in
    let reach : m ≤ℤ far box m -ℤ n = sub_swap n m (far box m) fits in
    let a = clamp_start m box n start in
    let end : a ≤ℤ far box m -ℤ n = clamp_upper m start (far box m -ℤ n) reach in
    (
      clamp_lower min size (far box m -ℤ m),
      clamp_lower m start (far box m -ℤ n),
      sym (le-sub_iff a (far box m) n) ∙ end,
    )

-- In a frame with room for the smallest window, a clamped window is at least that large, keeps the
-- margin on all four sides.
clamp_geom-IsInside :
    (g : Geom) (box : Box) (l : Limits) → HasRoom box l → IsInside (clamp_geom g box l) box l
unfolding clamp_geom
clamp_geom-IsInside g box l room = (
  clamp-IsWithin l.minw l.m (pos box.w) g.width g.left room.0,
  clamp-IsWithin l.minh l.m (pos box.h) g.height g.top room.1,
)

clamp_axis_inside :
    (min m box size start : ℤ)
    → IsWithin min m box start size
    → (clamp_size min m box size ≡ size) × (clamp_start m box size start ≡ start)
unfolding clamp_size clamp_start
clamp_axis_inside min m box size start (large, near, end) =
    let before : start ≤ℤ far box m -ℤ size = le-sub_iff start (far box m) size ∙ end in
    let fits : size ≤ℤ far box m -ℤ m =
      sub_swap m size (far box m) (le_trans_ℤ m start (far box m -ℤ size) near before) in
    (
      clamp_inside min size (far box m -ℤ m) large fits,
      clamp_inside m start (far box m -ℤ size) near before,
    )

-- A window that lies inside is left as it is.
pub clamp_geom_inside :
    (g : Geom) (box : Box) (l : Limits) → IsInside g box l → clamp_geom g box l ≡ g
unfolding clamp_geom
clamp_geom_inside g box l (h, v) =
    let (w, x) = clamp_axis_inside l.minw l.m (pos box.w) g.width g.left h in
    let (t, y) = clamp_axis_inside l.minh l.m (pos box.h) g.height g.top v in rw (w, t, x, y) refl
