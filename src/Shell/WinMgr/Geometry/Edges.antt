-- ===== src/Shell/WinMgr/Geometry/Edges.antt =====
-- A drag moves the dragged edges of a window and leaves the opposite ones where they are.
use vibetop.Base.{
  ◌≡◌, refl, sym, ◌∙◌, ap, subst, Bool, true, false, ℤ, pos, ◌+ℤ◌, ◌-ℤ◌, leb_ℤ, ◌≤ℤ◌, le_refl_ℤ,
  add-sub_cancel, arith, if_elim,
}
use vibetop.Shell.WinMgr.Geometry.{
  Box, Geom, Limits, Dir, Span, span, far, resize_span, resize_geom,
}
use vibetop.Shell.WinMgr.Geometry.Inside.{IsWithin, IsInside, clamp_geom_inside}

-- What a drag leaves in place along one axis.
abbrev pub Anchored : (far near : Bool) → Span → Span → Type 0
Anchored false false x y = y ≡ x
Anchored true false x y = y.start ≡ x.start
Anchored false true x y = y.start +ℤ y.size ≡ x.start +ℤ x.size
Anchored true true x y = Unit

-- The dragged edge stays between the margins.
abbrev pub Reaches : (far near : Bool) → (m box d : ℤ) → Span → Type 0
Reaches false false m box d x = Unit
Reaches true false m box d x = x.start +ℤ x.size +ℤ d ≤ℤ far box m
Reaches false true m box d x = m ≤ℤ x.start +ℤ d
Reaches true true m box d x = ⊥

shift_far : (a n d : ℤ) → a +ℤ n +ℤ d ≡ a +ℤ (n +ℤ d)
unfolding ◌+ℤ◌
shift_far a n d = ground arith

shift_near : (a n d : ℤ) → a +ℤ d +ℤ (n -ℤ d) ≡ a +ℤ n
unfolding ◌+ℤ◌ ◌-ℤ◌
shift_near a n d = ground arith

pin_near : (a n k : ℤ) → a -ℤ (k -ℤ n) +ℤ k ≡ a +ℤ n
unfolding ◌+ℤ◌ ◌-ℤ◌
pin_near a n k = ground arith

-- A start that the smallest size pins lies at or after the old one.
pinned_start : (a n k m : ℤ) → k ≤ℤ n → m ≤ℤ a → m ≤ℤ a +ℤ n -ℤ k
unfolding leb_ℤ ◌+ℤ◌ ◌-ℤ◌
pinned_start a n k m h g = ground arith

pinned_end : (a n k e : ℤ) → k ≤ℤ n → a +ℤ n ≤ℤ e → a +ℤ k ≤ℤ e
unfolding leb_ℤ ◌+ℤ◌
pinned_end a n k e h g = ground arith

pin_start : (a n k d : ℤ) → a +ℤ d -ℤ (k -ℤ (n -ℤ d)) ≡ a +ℤ n -ℤ k
pin_start a n k d =
    sym (add-sub_cancel (a +ℤ d -ℤ (k -ℤ (n -ℤ d))) k)
    ∙ ap (λ e. e -ℤ k) (pin_near (a +ℤ d) (n -ℤ d) k ∙ shift_near a n d)

-- One axis: what a drag within the margins leads to, and what it leaves in place.
abbrev Good : (far near : Bool) → (min m box : ℤ) → Span → Span → Type 0
Good far near min m box x y = IsWithin min m box y.start y.size × Anchored far near x y

resize_span-Good :
    (far near : Bool) (d min m box : ℤ) (x : Span)
    → IsWithin min m box x.start x.size
    → Reaches far near m box d x
    → Good far near min m box x (resize_span far near d min x)
unfolding resize_span
resize_span-Good false false d min m box x (large, near, end) r =
    if_elim (Good false false min m box x) (leb_ℤ min x.size) (λ _. ((large, near, end), refl))
      (λ small. ground arith)
resize_span-Good true false d min m box x (large, near, end) r =
    if_elim (Good true false min m box x) (leb_ℤ min (x.size +ℤ d))
      (λ ok.
        ((ok, near, ap (λ e. leb_ℤ e (far box m)) (sym (shift_far x.start x.size d)) ∙ r), refl))
      (λ small. ((le_refl_ℤ min, near, pinned_end x.start x.size min (far box m) large end), refl))
resize_span-Good false true d min m box x (large, near, end) r =
    let kept = shift_near x.start x.size d in
    if_elim (Good false true min m box x) (leb_ℤ min (x.size -ℤ d))
      (λ ok. ((ok, r, ap (λ e. leb_ℤ e (far box m)) kept ∙ end), kept))
      (λ small.
        let anchored : x.start +ℤ d -ℤ (min -ℤ (x.size -ℤ d)) +ℤ min ≡ x.start +ℤ x.size =
          pin_near (x.start +ℤ d) (x.size -ℤ d) min ∙ kept in
        (
          (
            le_refl_ℤ min,
            ap (leb_ℤ m) (pin_start x.start x.size min d)
                ∙ pinned_start x.start x.size min m large near,
            ap (λ e. leb_ℤ e (far box m)) anchored ∙ end,
          ),
          anchored,
        ))
resize_span-Good true true d min m box x w r = absurd r

-- What a drag of the window `g` is to lead to.
abbrev pub IsDragged : Geom → Dir → Box → Limits → Geom → Type 0
IsDragged g dir box l r =
    IsInside r box l
    × Anchored dir.e dir.w (span g.left g.width) (span r.left r.width)
    × Anchored dir.s dir.n (span g.top g.height) (span r.top r.height)

abbrev across : Geom → Span
across g = span g.left g.width

abbrev down : Geom → Span
down g = span g.top g.height

-- Dragging edges or a corner of a window that lies inside, with the dragged edges kept between the
-- margins: the result lies inside, and on each axis the opposite edge stays, or both where none is
-- dragged. This also holds where the smallest size pins the dragged edge.
pub resize_geom-Anchored :
    (g : Geom) (dir : Dir) (dx dy : ℤ) (box : Box) (l : Limits)
    → IsInside g box l
    → Reaches dir.e dir.w l.m (pos box.w) dx (span g.left g.width)
    → Reaches dir.s dir.n l.m (pos box.h) dy (span g.top g.height)
    → IsDragged g dir box l (resize_geom g dir dx dy box l)
unfolding resize_geom
resize_geom-Anchored g dir dx dy box l (h, v) rx ry =
    let (inx, ax) = resize_span-Good dir.e dir.w dx l.minw l.m (pos box.w) (across g) h rx in
    let (iny, ay) = resize_span-Good dir.s dir.n dy l.minh l.m (pos box.h) (down g) v ry in
    let x = resize_span dir.e dir.w dx l.minw (across g) in
    let y = resize_span dir.s dir.n dy l.minh (down g) in
    let raw : Geom = record { left = x.start; top = y.start; width = x.size; height = y.size } in
    subst (IsDragged g dir box l) (sym (clamp_geom_inside raw box l (inx, iny)))
      ((inx, iny), ax, ay)
