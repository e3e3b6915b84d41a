-- ===== src/Shell/WinMgr/Zones.antt =====
-- shell/winmgr.js: which window stands in which zone of a layout. Windows are numbers, compared by
-- equality only; an empty slot of an array is `none`. Indices are natural numbers: the source sends a
-- negative one of `swapZones` back unchanged, as it does one past the end.
pub mod Assign
pub mod Swap
mod Tests
use vibetop.Base.{
  ℕ, zero, suc, ◌+◌, ◌-◌, min, max, Bool, true, false, ◌&&◌, ◌||◌, not, Option, none, some, List,
  [], ◌∷◌, if◌then◌else◌, ◌==◌, ltb, leb, length, get_elem?, replicate, keep, mem,
}

-- `out[i] = v`: past the end, the array grows and has holes before the new entry.
pub set_at : ℕ → ℕ → List (Option ℕ) → List (Option ℕ)
set_at zero v [] = some v ∷ []
set_at (suc i) v [] = none ∷ set_at i v []
set_at zero v (_ ∷ os) = some v ∷ os
set_at (suc i) v (o ∷ os) = o ∷ set_at i v os

-- The last loop: each hole takes the next of the rest, while there is one.
pub fill : List (Option ℕ) → List ℕ → List (Option ℕ)
fill [] rest = []
fill (some v ∷ os) rest = some v ∷ fill os rest
fill (none ∷ os) [] = none ∷ fill os []
fill (none ∷ os) (r ∷ rest) = some r ∷ fill os rest

abbrev pub others : ℕ → List ℕ → List ℕ
others f ids = keep (λ id. not (id == f)) ids

pub zone_assign : List ℕ → Option ℕ → (zone_count main_zone : ℕ) → List (Option ℕ)
unfolding fill set_at
zone_assign ids none zone_count main_zone = fill (replicate (min zone_count (length ids)) none) ids
zone_assign ids (some f) zone_count main_zone =
    let n = min zone_count (length ids) in
    if mem f ids
    then fill (set_at (min (n - 1) main_zone) f (replicate n none)) (others f ids)
    else fill (replicate n none) ids

pub set_elem : ℕ → ℕ → List ℕ → List ℕ
set_elem i v [] = []
set_elem zero v (_ ∷ xs) = v ∷ xs
set_elem (suc i) v (x ∷ xs) = x ∷ set_elem i v xs

abbrev pub is_idle : List ℕ → (i j : ℕ) → Bool
is_idle xs i j = i == j || leb (length xs) i || leb (length xs) j

pub swap_in : ℕ → ℕ → Option ℕ → Option ℕ → List ℕ → List ℕ
unfolding set_elem
swap_in i j (some a) (some b) xs = set_elem j a (set_elem i b xs)
swap_in i j _ _ xs = xs

pub swap_zones : List ℕ → (i j : ℕ) → List ℕ
unfolding swap_in
swap_zones xs i j = if is_idle xs i j then xs else swap_in i j (get_elem? xs i) (get_elem? xs j) xs
