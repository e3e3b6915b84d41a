-- ===== src/Shell/WinMgr/Layouts/Tiling.antt =====
-- The zones of a layout tile the frame.
use vibetop.Base.{
  ℕ, ◌+◌, ◌-◌, ◌≤◌, ◌<◌, ◌≡◌, refl, Bool, true, ◌&&◌, none, some, List, [], ◌∷◌, if◌then◌else◌, ltb,
  leb, arith, Bool-cases, inl, inr, sym,
}
use vibetop.Shell.WinMgr.Layouts.{
  Box, Geom, Zone, Key, halves, split21, thirds, main2, stacked, quads, columns, zones, round,
  geom_of, geoms_of, layout_geoms, minw, minh, zero_edge, one_edge, ◌//◌,
}

-- Whether the pixel at `x`, `y` lies in the window.
abbrev pub covers : ℕ → ℕ → Geom → Bool
covers x y g = leb g.left x && ltb x (g.left + g.width) && leb g.top y && ltb y (g.top + g.height)

unfoldable pub covering : ℕ → ℕ → List Geom → ℕ
covering x y [] = 0
covering x y (g ∷ gs) = (if covers x y g then 1 else 0) + covering x y gs

-- Where no zone is too small, the zones are all there.
all_geoms : List Zone → Box → List Geom
all_geoms [] box = []
all_geoms (z ∷ zs) box = geom_of z box ∷ all_geoms zs box

abbrev is_large : Geom → Bool
is_large g = leb minw g.width && leb minh g.height

pub all_large : List Geom → Bool
all_large [] = true
all_large (g ∷ gs) = is_large g && all_large gs

geoms_of_all :
    (zs : List Zone) (box : Box)
    → geoms_of zs box ≡ (if all_large (all_geoms zs box) then some (all_geoms zs box) else none)
unfolding geoms_of all_geoms all_large
geoms_of_all [] box = refl
geoms_of_all (z ∷ zs) box = ground (arith, geoms_of_all zs box)

round-zero_edge : (n : ℕ) → round zero_edge n ≡ 0
unfolding round
round-zero_edge n = ground arith

round-one_edge : (n : ℕ) → round one_edge n ≡ n
unfolding round
round-one_edge n = ground arith

-- The window between two columns and two rows.
abbrev cell : ℕ → ℕ → ℕ → ℕ → Geom
cell l r t b = record { left = l; top = t; width = r - l; height = b - t }

columns_covered :
    (a b c w h x y : ℕ)
    → a ≤ b
    → b ≤ c
    → c ≤ w
    → x < w
    → y < h
    → covering x y (cell 0 a 0 h ∷ cell a b 0 h ∷ cell b c 0 h ∷ cell c w 0 h ∷ []) ≡ 1
unfolding covering
columns_covered a b c w h x y ab bc cw hx hy = ground arith

quads_covered :
    (a b w h x y : ℕ)
    → a ≤ w
    → b ≤ h
    → x < w
    → y < h
    → covering x y (cell 0 a 0 b ∷ cell a w 0 b ∷ cell 0 a b h ∷ cell a w b h ∷ []) ≡ 1
unfolding covering
quads_covered a b w h x y aw bh hx hy = ground arith

halves_covered :
    (a w h x y : ℕ) → a ≤ w → x < w → y < h → covering x y (cell 0 a 0 h ∷ cell a w 0 h ∷ []) ≡ 1
unfolding covering
halves_covered a w h x y aw hx hy = ground arith

thirds_covered :
    (a b w h x y : ℕ)
    → a ≤ b
    → b ≤ w
    → x < w
    → y < h
    → covering x y (cell 0 a 0 h ∷ cell a b 0 h ∷ cell b w 0 h ∷ []) ≡ 1
unfolding covering
thirds_covered a b w h x y ab bw hx hy = ground arith

main_covered :
    (a b w h x y : ℕ)
    → a ≤ w
    → b ≤ h
    → x < w
    → y < h
    → covering x y (cell 0 a 0 h ∷ cell a w 0 b ∷ cell a w b h ∷ []) ≡ 1
unfolding covering
main_covered a b w h x y aw bh hx hy = ground arith

stacked_covered :
    (b w h x y : ℕ) → b ≤ h → x < w → y < h → covering x y (cell 0 w 0 b ∷ cell 0 w b h ∷ []) ≡ 1
unfolding covering
stacked_covered b w h x y bh hx hy = ground arith

-- The edges between zones keep their order when they are rounded.
half_le : (n : ℕ) → round (1 // 2) n ≤ n
unfolding round
half_le n = omega arith

third_le : (n : ℕ) → round (1 // 3) n ≤ round (2 // 3) n
unfolding round
third_le n = omega arith

two_thirds_le : (n : ℕ) → round (2 // 3) n ≤ n
unfolding round
two_thirds_le n = omega arith

three_fifths_le : (n : ℕ) → round (3 // 5) n ≤ n
unfolding round
three_fifths_le n = omega arith

quarter_le : (n : ℕ) → round (1 // 4) n ≤ round (1 // 2) n
unfolding round
quarter_le n = omega arith

half_le_three_quarters : (n : ℕ) → round (1 // 2) n ≤ round (3 // 4) n
unfolding round
half_le_three_quarters n = omega arith

three_quarters_le : (n : ℕ) → round (3 // 4) n ≤ n
unfolding round
three_quarters_le n = omega arith

all_geoms_covered :
    (k : Key) (box : Box) (x y : ℕ)
    → x < box.w
    → y < box.h
    → covering x y (all_geoms (zones k) box) ≡ 1
unfolding zones all_geoms geom_of
all_geoms_covered halves box x y hx hy =
    rw (round-zero_edge box.w, round-one_edge box.w, round-zero_edge box.h, round-one_edge box.h)
      (halves_covered _ _ _ x y (half_le box.w) hx hy)
all_geoms_covered split21 box x y hx hy =
    rw (round-zero_edge box.w, round-one_edge box.w, round-zero_edge box.h, round-one_edge box.h)
      (halves_covered _ _ _ x y (two_thirds_le box.w) hx hy)
all_geoms_covered thirds box x y hx hy =
    rw (round-zero_edge box.w, round-one_edge box.w, round-zero_edge box.h, round-one_edge box.h)
      (thirds_covered _ _ _ _ x y (third_le box.w) (two_thirds_le box.w) hx hy)
all_geoms_covered main2 box x y hx hy =
    rw (round-zero_edge box.w, round-one_edge box.w, round-zero_edge box.h, round-one_edge box.h)
      (main_covered _ _ _ _ x y (three_fifths_le box.w) (half_le box.h) hx hy)
all_geoms_covered stacked box x y hx hy =
    rw (round-zero_edge box.w, round-one_edge box.w, round-zero_edge box.h, round-one_edge box.h)
      (stacked_covered _ _ _ x y (half_le box.h) hx hy)
all_geoms_covered quads box x y hx hy =
    rw (round-zero_edge box.w, round-one_edge box.w, round-zero_edge box.h, round-one_edge box.h)
      (quads_covered _ _ _ _ x y (half_le box.w) (half_le box.h) hx hy)
all_geoms_covered columns box x y hx hy =
    rw (round-zero_edge box.w, round-one_edge box.w, round-zero_edge box.h, round-one_edge box.h)
      (columns_covered _ _ _ _ _ x y (quarter_le box.w) (half_le_three_quarters box.w)
        (three_quarters_le box.w) hx hy)

-- The zones of a layout that fits tile the frame: each pixel of the frame lies in exactly one zone.
-- And each zone is at least as large as the smallest window.
pub layout_geoms-tile :
    (k : Key) (box : Box) {gs : List Geom}
    → layout_geoms k box ≡ some gs
    → ((x y : ℕ) → x < box.w → y < box.h → covering x y gs ≡ 1) × (all_large gs ≡ true)
unfolding layout_geoms
layout_geoms-tile k box {gs} h = elim (Bool-cases (all_large (all_geoms (zones k) box))) [
  | inl large ↦
      let here : all_geoms (zones k) box ≡ gs = ground (arith, geoms_of_all (zones k) box) in
      (λ x y hx hy. rw (sym here) (all_geoms_covered k box x y hx hy), rw (sym here) large)
  | inr small ↦ ground (arith, geoms_of_all (zones k) box)
]
