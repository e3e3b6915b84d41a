-- ===== src/Shell/WinMgr/Occupancy/Found.antt =====
-- The arrangements that `zoneOccupancy` recognizes.
use vibetop.Base.{
  ℕ, ◌≡◌, refl, ◌∙◌, ap, Bool, true, false, ◌&&◌, ◌||◌, Option, none, some, List, [], ◌∷◌,
  if◌then◌else◌, if_elim, ◌==◌, arith, length, Text, same, same_refl, same_iff, lookup,
  KeysDistinct, ==_iff,
}
use vibetop.Shell.WinMgr.Geometry.{Geom}
use vibetop.Shell.WinMgr.Occupancy.{fits, is_used, claimant, claim_all, zone_occupancy}

-- Some window of the name fits the zone.
unfoldable pub has_fit : ℕ → Geom → Text → List (Text × Geom) → Bool
has_fit tol z id [] = false
has_fit tol z id ((other, g) ∷ geoms) = (same other id && fits tol g z) || has_fit tol z id geoms

-- Zone by zone, a window that fits it and that no earlier zone has.
unfoldable pub Occupied : ℕ → List (Text × Geom) → List Geom → List Text → List Text → Type 0
Occupied tol geoms [] used [] = Unit
Occupied tol geoms [] used (_ ∷ _) = ⊥
Occupied tol geoms (z ∷ zones) used [] = ⊥
Occupied tol geoms (z ∷ zones) used (id ∷ out) =
    (is_used id used ≡ false)
    × (has_fit tol z id geoms ≡ true)
    × Occupied tol geoms zones (id ∷ used) out

claimant-taken :
    (tol : ℕ) (z : Geom) (used : List Text) (geoms : List (Text × Geom)) (hit id : Text)
    → claimant tol z used geoms (some hit) ≡ some (some id)
    → hit ≡ id
unfolding claimant
claimant-taken tol z used [] hit id h = cc
claimant-taken tol z used ((other, g) ∷ geoms) hit id h =
    ground (arith, h, claimant-taken tol z used geoms hit id)

claimant-fit :
    (tol : ℕ) (z : Geom) (used : List Text) (geoms : List (Text × Geom)) (id : Text)
    → claimant tol z used geoms none ≡ some (some id)
    → (is_used id used ≡ false) × (has_fit tol z id geoms ≡ true)
unfolding claimant has_fit
claimant-fit tol z used [] id h = ground (arith, h)
claimant-fit tol z used ((other, g) ∷ geoms) id h = ground (
  arith,
  h,
  claimant-fit tol z used geoms id,
  claimant-taken tol z used geoms other id,
  same_iff other id,
  ap (λ k. is_used k used) {x = other} {y = id},
)

claim_all-first :
    (tol : ℕ) (geoms : List (Text × Geom)) (z : Geom) (zones : List Geom) (used : List Text)
    (id : Text) (out : List Text)
    → claim_all tol geoms (z ∷ zones) used ≡ some (id ∷ out)
    → (claimant tol z used geoms none ≡ some (some id))
      × (claim_all tol geoms zones (id ∷ used) ≡ some out)
unfolding claim_all
claim_all-first tol geoms z zones used id out h = ground (arith, h)

claim_all-Occupied :
    (tol : ℕ) (geoms : List (Text × Geom)) (zones : List Geom) (used out : List Text)
    → claim_all tol geoms zones used ≡ some out
    → Occupied tol geoms zones used out
unfolding claim_all Occupied
claim_all-Occupied tol geoms [] used [] h = tt
claim_all-Occupied tol geoms [] used (_ ∷ _) h = ground (arith, h)
claim_all-Occupied tol geoms (z ∷ zones) used [] h = ground (arith, h)
claim_all-Occupied tol geoms (z ∷ zones) used (id ∷ out) h =
    let (first, later) = claim_all-first tol geoms z zones used id out h in
    let (new, fit) = claimant-fit tol z used geoms id first in
    (new, fit, claim_all-Occupied tol geoms zones (id ∷ used) out later)

claimant-none :
    (tol : ℕ) (z : Geom) (used : List Text) (geoms : List (Text × Geom)) (hit : Option Text)
    → ((id : Text) → has_fit tol z id geoms ≡ false)
    → claimant tol z used geoms hit ≡ some hit
unfolding claimant has_fit
claimant-none tol z used [] hit none_fits = refl
claimant-none tol z used ((other, g) ∷ geoms) none none_fits = ground (
  arith,
  none_fits other,
  same_refl other,
  claimant-none tol z used geoms none (λ id. ground (arith, none_fits id)),
)
claimant-none tol z used ((other, g) ∷ geoms) (some hit) none_fits = ground (
  arith,
  none_fits other,
  same_refl other,
  claimant-none tol z used geoms (some hit) (λ id. ground (arith, none_fits id)),
)

absent-fit :
    (tol : ℕ) (z : Geom) (id : Text) (geoms : List (Text × Geom))
    → lookup id geoms ≡ none
    → has_fit tol z id geoms ≡ false
unfolding has_fit lookup
absent-fit tol z id [] h = refl
absent-fit tol z id ((other, g) ∷ geoms) h = ground (arith, h, absent-fit tol z id geoms)

-- Only the window of the name fits the zone.
abbrev pub IsSole : ℕ → Geom → List (Text × Geom) → Text → Type 0
IsSole tol z geoms id = (other : Text) → has_fit tol z other geoms ≡ true → other ≡ id

claimant-sole :
    (tol : ℕ) (z : Geom) (used : List Text) (geoms : List (Text × Geom)) (id : Text)
    → KeysDistinct geoms
    → is_used id used ≡ false
    → has_fit tol z id geoms ≡ true
    → IsSole tol z geoms id
    → claimant tol z used geoms none ≡ some (some id)
unfolding claimant has_fit
claimant-sole tol z used [] id d new fit sole = ground (arith, fit)
claimant-sole tol z used ((other, g) ∷ geoms) id (fresh, d) new fit sole =
    let only : IsSole tol z geoms id = λ k h. sole k (ground (arith, h)) in
    let rest = claimant-sole tol z used geoms id d new in
    let Found : Option (Option Text) → Type 0 = λ r. r ≡ some (some id) in
    if_elim Found (is_used other used)
      (λ taken.
        rest
          (ground (
            arith,
            fit,
            taken,
            new,
            same_iff other id,
            ap (λ k. is_used k used) {x = other} {y = id},
          ))
          only)
      (λ free.
        if_elim Found (fits tol g z)
          (λ here.
            let mine : other ≡ id = sole other (ground (arith, here, same_refl other)) in
            claimant-none tol z used geoms (some other) (λ k. ground (
              arith,
              only k,
              absent-fit tol z other geoms fresh,
              mine,
              ap (λ i. has_fit tol z i geoms) {x = k} {y = other},
            ))
            ∙ ap (λ i. some (some i)) mine)
          (λ away. rest (ground (arith, fit, away)) only))

-- Zone by zone, a window that is the only one to fit it.
unfoldable pub AllSole : ℕ → List (Text × Geom) → List Geom → List Text → Type 0
AllSole tol geoms [] out = Unit
AllSole tol geoms (z ∷ zones) [] = Unit
AllSole tol geoms (z ∷ zones) (id ∷ out) = IsSole tol z geoms id × AllSole tol geoms zones out

claim_all-sole :
    (tol : ℕ) (geoms : List (Text × Geom)) (zones : List Geom) (used out : List Text)
    → KeysDistinct geoms
    → Occupied tol geoms zones used out
    → AllSole tol geoms zones out
    → claim_all tol geoms zones used ≡ some out
unfolding claim_all Occupied AllSole
claim_all-sole tol geoms [] used [] d o sole = refl
claim_all-sole tol geoms [] used (_ ∷ _) d o sole = absurd o
claim_all-sole tol geoms (z ∷ zones) used [] d o sole = absurd o
claim_all-sole tol geoms (z ∷ zones) used (id ∷ out) d (new, fit, o) (sole, later) =
    let first = claimant-sole tol z used geoms id d new fit sole in
    let rest = claim_all-sole tol geoms zones (id ∷ used) out d o later in
    ground (arith, first, rest)

-- The tolerance that is used.
abbrev pub tolerance : ℕ → ℕ
tolerance tol = if tol == 0 then 4 else tol

-- The arrangement that is recognized is a bijection: there are as many zones as windows, and each
-- zone in turn has a window that fits it within the tolerance and that no earlier zone has.
zone_occupancy-Occupied :
    (zones : List Geom) (geoms : List (Text × Geom)) (tol : ℕ) (out : List Text)
    → zone_occupancy zones geoms tol ≡ some out
    → (length geoms ≡ length zones) × Occupied (tolerance tol) geoms zones [] out
unfolding zone_occupancy
zone_occupancy-Occupied zones geoms tol out h = (
  (==_iff (length geoms) (length zones)).0 (ground (arith, h)),
  claim_all-Occupied (tolerance tol) geoms zones [] out (ground (arith, h)),
)

-- Where there are as many zones as windows of different names, and each zone has a window of its own
-- that is the only one to fit it within the tolerance, this arrangement is recognized.
zone_occupancy-sole :
    (zones : List Geom) (geoms : List (Text × Geom)) (tol : ℕ) (out : List Text)
    → KeysDistinct geoms
    → length geoms ≡ length zones
    → Occupied (tolerance tol) geoms zones [] out
    → AllSole (tolerance tol) geoms zones out
    → zone_occupancy zones geoms tol ≡ some out
unfolding zone_occupancy
zone_occupancy-sole zones geoms tol out d size o sole =
    let found = claim_all-sole (tolerance tol) geoms zones [] out d o sole in
    rw ((==_iff (length geoms) (length zones)).1 size) found
