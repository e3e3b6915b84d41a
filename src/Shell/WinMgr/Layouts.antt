-- ===== src/Shell/WinMgr/Layouts.antt =====
-- shell/winmgr.js: the snap layouts. A fraction of the frame is a numerator over a denominator, so
-- that `Math.round` of a product is exact; the source's binary fractions round the same way on every
-- frame below 2 ^ 50 pixels, since no product with a third or a fifth ends in a half.
pub mod Tiling
mod Tests
use vibetop.Base.{
  ℕ, ◌+◌, ◌-◌, ◌*◌, ◌/◌, Bool, true, false, ◌&&◌, ◌||◌, not, Option, none, some, List, [], ◌∷◌,
  if◌then◌else◌, ◌==◌, ltb, leb, length,
}

pub record Box : Type 0 where
  pub w : ℕ
  pub h : ℕ

pub record Geom : Type 0 where
  pub left : ℕ
  pub top : ℕ
  pub width : ℕ
  pub height : ℕ

abbrev pub minw : ℕ
minw = 320

abbrev pub minh : ℕ
minh = 200

-- The fraction `num` / `den`.
pub record Fraction : Type 0 where
  pub num : ℕ
  pub den : ℕ

infix 60 ◌//◌
abbrev pub ◌//◌ : ℕ → ℕ → Fraction
a // b = record { num = a; den = b }

-- A zone: its left, top, right and bottom edge. The source writes width and height and adds; the sums
-- of its literals are these edges.
pub record Zone : Type 0 where
  pub left : Fraction
  pub top : Fraction
  pub right : Fraction
  pub bottom : Fraction

abbrev pub zone : Fraction → Fraction → Fraction → Fraction → Zone
zone l t r b = record { left = l; top = t; right = r; bottom = b }

pub data Key : Type 0 where
  halves split21 thirds main2 stacked quads columns : Key

abbrev pub zero_edge : Fraction
zero_edge = 0 // 1

abbrev pub one_edge : Fraction
one_edge = 1 // 1

pub zones : Key → List Zone
zones halves =
    zone zero_edge zero_edge (1 // 2) one_edge ∷ zone (1 // 2) zero_edge one_edge one_edge ∷ []
zones split21 =
    zone zero_edge zero_edge (2 // 3) one_edge ∷ zone (2 // 3) zero_edge one_edge one_edge ∷ []
zones thirds =
    zone zero_edge zero_edge (1 // 3) one_edge
    ∷ zone (1 // 3) zero_edge (2 // 3) one_edge
    ∷ zone (2 // 3) zero_edge one_edge one_edge
    ∷ []
zones main2 =
    zone zero_edge zero_edge (3 // 5) one_edge
    ∷ zone (3 // 5) zero_edge one_edge (1 // 2)
    ∷ zone (3 // 5) (1 // 2) one_edge one_edge
    ∷ []
zones stacked =
    zone zero_edge zero_edge one_edge (1 // 2) ∷ zone zero_edge (1 // 2) one_edge one_edge ∷ []
zones quads =
    zone zero_edge zero_edge (1 // 2) (1 // 2)
    ∷ zone (1 // 2) zero_edge one_edge (1 // 2)
    ∷ zone zero_edge (1 // 2) (1 // 2) one_edge
    ∷ zone (1 // 2) (1 // 2) one_edge one_edge
    ∷ []
zones columns =
    zone zero_edge zero_edge (1 // 4) one_edge
    ∷ zone (1 // 4) zero_edge (1 // 2) one_edge
    ∷ zone (1 // 2) zero_edge (3 // 4) one_edge
    ∷ zone (3 // 4) zero_edge one_edge one_edge
    ∷ []

-- `LAYOUTS`, in its order.
abbrev pub layouts : List Key
layouts = halves ∷ split21 ∷ thirds ∷ main2 ∷ stacked ∷ quads ∷ columns ∷ []

-- `Math.round` of a fraction of a length: halves go up.
pub round : Fraction → ℕ → ℕ
round f n = (2 * (f.num * n) + f.den) / (2 * f.den)

pub geom_of : Zone → Box → Geom
unfolding round
geom_of z box =
    let l = round z.left box.w in
    let r = round z.right box.w in
    let t = round z.top box.h in
    let b = round z.bottom box.h in record { left = l; top = t; width = r - l; height = b - t }

pub geoms_of : List Zone → Box → Option (List Geom)
unfolding geom_of
geoms_of [] box = some []
geoms_of (z ∷ zs) box =
    let g = geom_of z box in
    let rest = geoms_of zs box in
    if ltb g.width minw || ltb g.height minh
    then none
    else elim rest [ none ↦ none | some gs ↦ some (g ∷ gs) ]

-- The zones of a layout in pixels, or nothing where one of them is too small.
pub layout_geoms : Key → Box → Option (List Geom)
unfolding zones geoms_of
layout_geoms key box = geoms_of (zones key) box

-- The layouts of the given ones with just as many zones as windows, all of them large enough.
offered : Box → ℕ → List Key → List Key
unfolding layout_geoms
offered box count [] = []
offered box count (k ∷ ks) =
    let rest = offered box count ks in
    if length (zones k) == count
    then elim (layout_geoms k box) [ none ↦ rest | some _ ↦ k ∷ rest ]
    else rest

pub layouts_for : Box → ℕ → List Key
unfolding offered
layouts_for box count = offered box count layouts
