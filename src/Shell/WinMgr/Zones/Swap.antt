-- ===== src/Shell/WinMgr/Zones/Swap.antt =====
-- A swap of two zones exchanges their windows and touches no other, and undoes itself.
use vibetop.Base.{
  ℕ, zero, suc, ◌≤◌, ◌<◌, ◌≡◌, refl, ◌∙◌, ap, true, Option, none, some, List, [], ◌∷◌,
  if◌then◌else◌, ◌==◌, leb, length, get_elem?, arith, Bool-cases, if_elim, inl, inr,
}
use vibetop.Shell.WinMgr.Zones.{set_elem, swap_in, swap_zones, is_idle}

get_elem?-set_elem :
    (k i v : ℕ) (xs : List ℕ)
    → get_elem? (set_elem i v xs) k
      ≡ (if k == i then (if leb (length xs) k then none else some v) else get_elem? xs k)
unfolding set_elem
get_elem?-set_elem k i v [] = ground arith
get_elem?-set_elem zero zero v (x ∷ xs) = ground arith
get_elem?-set_elem zero (suc i) v (x ∷ xs) = ground arith
get_elem?-set_elem (suc k) zero v (x ∷ xs) = ground arith
get_elem?-set_elem (suc k) (suc i) v (x ∷ xs) = ground (arith, get_elem?-set_elem k i v xs)

length-set_elem : (i v : ℕ) (xs : List ℕ) → length (set_elem i v xs) ≡ length xs
unfolding set_elem
length-set_elem i v [] = refl
length-set_elem zero v (x ∷ xs) = refl
length-set_elem (suc i) v (x ∷ xs) = ap suc (length-set_elem i v xs)

get_elem?_inside : (i : ℕ) (xs : List ℕ) → i < length xs → (v : ℕ) × (get_elem? xs i ≡ some v)
get_elem?_inside i [] h = ground arith
get_elem?_inside zero (x ∷ xs) h = (x, refl)
get_elem?_inside (suc i) (x ∷ xs) h = get_elem?_inside i xs (omega arith)

get_elem?_outside : (i : ℕ) (xs : List ℕ) → length xs ≤ i → get_elem? xs i ≡ none
get_elem?_outside i [] h = refl
get_elem?_outside zero (x ∷ xs) h = ground arith
get_elem?_outside (suc i) (x ∷ xs) h = get_elem?_outside i xs (omega arith)

-- Where two zones exchange their windows, the window of each zone.
abbrev exchanged : (i j k : ℕ) → ℕ
exchanged i j k = if k == i then j else (if k == j then i else k)

-- Of two zones of the layout, each gets the window of the other; every other zone keeps its own.
get_elem?-swap_zones :
    (xs : List ℕ) (i j k : ℕ)
    → i < length xs
    → j < length xs
    → get_elem? (swap_zones xs i j) k ≡ get_elem? xs (exchanged i j k)
unfolding swap_zones swap_in
get_elem?-swap_zones xs i j k hi hj =
    let (a, ea) = get_elem?_inside i xs hi in
    let (b, eb) = get_elem?_inside j xs hj in
    rw (ea, eb)
      (ground (
        arith,
        ea,
        eb,
        get_elem?-set_elem k j a (set_elem i b xs),
        get_elem?-set_elem k i b xs,
        length-set_elem i b xs,
        get_elem?_outside k xs,
        ap (get_elem? xs) {x = k} {y = i},
        ap (get_elem? xs) {x = k} {y = j},
      ))

list_ext : (xs ys : List ℕ) → ((k : ℕ) → get_elem? xs k ≡ get_elem? ys k) → xs ≡ ys
list_ext [] [] h = refl
list_ext [] (y ∷ ys) h = let e = h 0 in ground arith
list_ext (x ∷ xs) [] h = let e = h 0 in ground arith
list_ext (x ∷ xs) (y ∷ ys) h =
    let e = h 0 in
    let same : x ≡ y = ground arith in rw (same, list_ext xs ys (λ k. h (suc k))) refl

length-swap_in : (i j : ℕ) (a b : Option ℕ) (xs : List ℕ) → length (swap_in i j a b xs) ≡ length xs
unfolding swap_in
length-swap_in i j none b xs = refl
length-swap_in i j (some a) none xs = refl
length-swap_in i j (some a) (some b) xs =
    length-set_elem j a (set_elem i b xs) ∙ length-set_elem i b xs

length-swap_zones : (xs : List ℕ) (i j : ℕ) → length (swap_zones xs i j) ≡ length xs
unfolding swap_zones
length-swap_zones xs i j =
    if_elim (λ (ys : List ℕ). length ys ≡ length xs) (is_idle xs i j) (λ _. refl)
      (λ _. length-swap_in i j (get_elem? xs i) (get_elem? xs j) xs)

swap_zones_idle : (xs : List ℕ) (i j : ℕ) → is_idle xs i j ≡ true → swap_zones xs i j ≡ xs
unfolding swap_zones
swap_zones_idle xs i j h = rw h refl

exchanged-exchanged : (i j k : ℕ) → exchanged i j (exchanged i j k) ≡ k
exchanged-exchanged i j k = ground arith

-- A swap is undone by the same swap, also where an index is out of range.
swap_zones-swap_zones : (xs : List ℕ) (i j : ℕ) → swap_zones (swap_zones xs i j) i j ≡ xs
swap_zones-swap_zones xs i j = elim (Bool-cases (is_idle xs i j)) [
  | inl idle ↦
      ap (λ ys. swap_zones ys i j) (swap_zones_idle xs i j idle) ∙ swap_zones_idle xs i j idle
  | inr busy ↦
      let ys = swap_zones xs i j in
      let size = length-swap_zones xs i j in
      list_ext (swap_zones ys i j) xs (λ k.
        get_elem?-swap_zones ys i j k (ground (arith, size)) (ground (arith, size))
        ∙ get_elem?-swap_zones xs i j (exchanged i j k) (ground arith) (ground arith)
        ∙ ap (get_elem? xs) (exchanged-exchanged i j k))
]
