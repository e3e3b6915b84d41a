-- ===== src/Shell/WinMgr/Zones/Assign.antt =====
-- Who stands where after `zone_assign`.
use vibetop.Base.{
  ℕ, zero, suc, ◌+◌, ◌-◌, ◌≤◌, ◌<◌, ◌≡◌, refl, ◌∙◌, subst, ap, min, true, Option, none, some, List,
  [], ◌∷◌, ◌++◌, map, if◌then◌else◌, ◌==◌, length, replicate, mem, take, drop, arith,
}
use vibetop.Shell.WinMgr.Zones.{set_at, fill, others, zone_assign}

unfoldable pub count : ℕ → List ℕ → ℕ
count a [] = 0
count a (b ∷ bs) = (if b == a then 1 else 0) + count a bs

length-others : (f : ℕ) (ids : List ℕ) → length (others f ids) + count f ids ≡ length ids
unfolding count
length-others f [] = refl
length-others f (a ∷ ids) = ground (arith, length-others f ids)

mem-count : (f : ℕ) (ids : List ℕ) → 1 ≤ count f ids → mem f ids ≡ true
unfolding count
mem-count f [] h = ground arith
mem-count f (a ∷ ids) h = ground (arith, mem-count f ids)

fill_holes :
    (n : ℕ) (rest : List ℕ)
    → n ≤ length rest
    → fill (replicate n none) rest ≡ map some (take n rest)
unfolding fill
fill_holes zero rest h = refl
fill_holes (suc n) [] h = ground arith
fill_holes (suc n) (r ∷ rest) h = rw (fill_holes n rest (omega arith)) refl

fill_around :
    (n m f : ℕ) (rest : List ℕ)
    → m ≤ n
    → n ≤ length rest
    → fill (set_at m f (replicate (suc n) none)) rest
      ≡ map some (take m rest ++ f ∷ drop m (take n rest))
unfolding fill set_at
fill_around n zero f rest h k = ap (λ xs. some f ∷ xs) (fill_holes n rest k)
fill_around zero (suc m) f rest h k = ground arith
fill_around (suc n) (suc m) f [] h k = ground arith
fill_around (suc n) (suc m) f (r ∷ rest) h k =
    ap (λ xs. some r ∷ xs) (fill_around n m f rest (omega arith) (omega arith))

fill_rest :
    (n m f : ℕ) (rest : List ℕ)
    → 1 ≤ n
    → m < n
    → n ≤ length rest + 1
    → fill (set_at m f (replicate n none)) rest
      ≡ map some (take m rest ++ f ∷ drop m (take (n - 1) rest))
fill_rest zero m f rest one h k = ground arith
fill_rest (suc n) m f rest one h k =
    let less : n ≡ suc n - 1 = omega arith in
    subst
      (λ i.
        fill (set_at m f (replicate (suc n) none)) rest
        ≡ map some (take m rest ++ f ∷ drop m (take i rest)))
      less (fill_around n m f rest (omega arith) (omega arith))

-- With a focused window that is there once, and a zone or more: it takes the main zone, or the last
-- zone where that number is too large, and the other windows fill the other zones in their order.
zone_assign-focused :
    (ids : List ℕ) (f zone_count main_zone : ℕ)
    → count f ids ≡ 1
    → 1 ≤ zone_count
    → let n = min zone_count (length ids) in
      let m = min (n - 1) main_zone in
      let rest = others f ids in
      zone_assign ids (some f) zone_count main_zone
      ≡ map some (take m rest ++ f ∷ drop m (take (n - 1) rest))
unfolding zone_assign
zone_assign-focused ids f zone_count main_zone once one =
    let there : mem f ids ≡ true = mem-count f ids (omega arith) in
    let size = length-others f ids in
    let n = min zone_count (length ids) in
    rw there (
      fill_rest n (min (n - 1) main_zone) f (others f ids) (omega (arith, size))
        (omega (arith, size)) (omega (arith, size)))

count-append : (a : ℕ) (xs ys : List ℕ) → count a (xs ++ ys) ≡ count a xs + count a ys
unfolding count
count-append a [] ys = omega arith
count-append a (x ∷ xs) ys = ground (arith, count-append a xs ys)

count_split : (a m : ℕ) (xs : List ℕ) → count a (take m xs) + count a (drop m xs) ≡ count a xs
unfolding count
count_split a zero xs = omega arith
count_split a (suc m) [] = refl
count_split a (suc m) (x ∷ xs) = ground (arith, count_split a m xs)

take_all : (n : ℕ) (xs : List ℕ) → length xs ≤ n → take n xs ≡ xs
take_all zero [] h = refl
take_all zero (x ∷ xs) h = ground arith
take_all (suc n) [] h = refl
take_all (suc n) (x ∷ xs) h = ap (λ ys. x ∷ ys) (take_all n xs (omega arith))

count-others :
    (a f : ℕ) (ids : List ℕ)
    → count a (others f ids) + (if a == f then count f ids else 0) ≡ count a ids
unfolding count
count-others a f [] = ground arith
count-others a f (x ∷ ids) = ground (arith, count-others a f ids)

pub seats : ℕ → List (Option ℕ) → ℕ
seats a [] = 0
seats a (none ∷ os) = seats a os
seats a (some b ∷ os) = (if b == a then 1 else 0) + seats a os

seats-map : (a : ℕ) (xs : List ℕ) → seats a (map some xs) ≡ count a xs
unfolding seats count
seats-map a [] = refl
seats-map a (x ∷ xs) = ap (λ n. (if x == a then 1 else 0) + n) (seats-map a xs)

-- With as many zones as windows or more, and the focused window there once, each window gets as many
-- zones as it has entries in the list: none is lost and none is seated twice.
zone_assign-seats :
    (ids : List ℕ) (f zone_count main_zone a : ℕ)
    → count f ids ≡ 1
    → length ids ≤ zone_count
    → seats a (zone_assign ids (some f) zone_count main_zone) ≡ count a ids
unfolding count
zone_assign-seats ids f zone_count main_zone a once enough =
    let size = length-others f ids in
    let rest = others f ids in
    let n = min zone_count (length ids) in
    let m = min (n - 1) main_zone in
    let all : take (n - 1) rest ≡ rest = take_all (n - 1) rest (omega (arith, size)) in
    rw (zone_assign-focused ids f zone_count main_zone once (omega (arith, size)), seats-map, all)
      (count-append a (take m rest) (f ∷ drop m rest)
        ∙ ground (arith, count_split a m rest, count-others a f ids))
