-- ===== src/Lite/Ledger/Evict.antt =====
-- Making room for a new lane: what evicting and opening do to the number of lanes.
use vibetop.Base.{
  ℕ, suc, ◌≤◌, ◌<◌, ◌≡◌, refl, sym, subst, ◌∙◌, Bool, true, false, ◌||◌, not, Option, none, some,
  List, [], ◌∷◌, ◌++◌, inl, inr, if◌then◌else◌, ltb, leb, arith, Text, same, same_refl, lookup-put,
  length, keep, lookup, remove, length-put, length-remove, Bool-cases, append-nil, ◌>>=◌,
}
use vibetop.Lite.Ledger.{
  Call, expire, Lane, Ledger, Options, Request, oldest, evict, evict_if, max_lanes, open_lane,
  new_lane,
}
use vibetop.Lite.Ledger.Steps.{performs, performs-append}

abbrev has_key : Text → List (Text × Lane) → Bool
has_key k [] = false
has_key k ((j, _) ∷ m) = same j k || has_key k m

length-remove_key :
    (k : Text) (m : List (Text × Lane)) → has_key k m ≡ true → length (remove k m) < length m
unfolding remove
length-remove_key k [] h = absurd (cc)
length-remove_key k ((j, w) ∷ m) h = ground (arith, length-remove_key k m, length-remove k m)

oldest-cons :
    (e f : Text × Lane) (es : List (Text × Lane))
    → oldest e (f ∷ es) ≡ oldest (if ltb f.1.expires e.1.expires then f else e) es
unfolding oldest
oldest-cons e f es = refl

oldest-has_key :
    (e : Text × Lane) (es : List (Text × Lane)) → has_key (oldest e es).0 (e ∷ es) ≡ true
unfolding oldest
oldest-has_key e [] = rw same_refl
oldest-has_key e (f ∷ es) = elim (Bool-cases (ltb f.1.expires e.1.expires)) [
  | inl older ↦
      moved_on f (rw (oldest-cons e f es, older) refl) (ground (arith, oldest-has_key f es))
  | inr newer ↦
      moved_on e (rw (oldest-cons e f es, newer) refl) (ground (arith, oldest-has_key e es))
]
  where
    moved_on :
        (g : Text × Lane)
        → oldest e (f ∷ es) ≡ oldest g es
        → has_key (oldest g es).0 (e ∷ f ∷ es) ≡ true
        → has_key (oldest e (f ∷ es)).0 (e ∷ f ∷ es) ≡ true
    moved_on g p h = subst (λ (k : Text × Lane). has_key k.0 (e ∷ f ∷ es) ≡ true) (sym p) h

-- The condition holds of the result, if there is one.
abbrev pub OnSome : {A : Type 0} → (A → Type 0) → Option A → Type 0
OnSome P none = Unit
OnSome P (some a) = P a

bind-OnSome :
    {A B : Type 0} (P : A → Type 0) (Q : B → Type 0) (m : Option A) (f : A → Option B)
    → OnSome P m
    → ((a : A) → P a → OnSome Q (f a))
    → OnSome Q (m >>= f)
bind-OnSome P Q none f h k = tt
bind-OnSome P Q (some a) f h k = k a h

performs-expire : (cs : List Call) (t : Option Text) → performs (cs ++ expire t ∷ []) ≡ performs cs
performs-expire cs t = rw (performs-append, append-nil)

-- At most `n` lanes, and no command since `s`.
abbrev Within : ℕ → Ledger → Ledger → Type 0
Within n s t = (length t.lanes ≤ n) × (performs t.calls ≡ performs s.calls)

evict-some :
    (es : List (Text × Lane)) (s : Ledger) → OnSome (Within (length s.lanes) s) (evict es s)
unfolding evict
evict-some [] s = tt
evict-some (e ∷ es) s =
    (length-remove (oldest e es).0 s.lanes, performs-expire s.calls (oldest e es).1.tab_id)

-- Evicting from all lanes makes room for one.
evict-all :
    (es : List (Text × Lane)) (cs : List Call) (n : ℕ)
    → length es ≤ suc n
    → let s : Ledger = record { lanes = es; calls = cs } in OnSome (Within n s) (evict es s)
unfolding evict
evict-all [] cs n h = tt
evict-all (e ∷ es) cs n h = (
  omega (arith, length-remove_key (oldest e es).0 (e ∷ es) (oldest-has_key e es)),
  performs-expire cs (oldest e es).1.tab_id,
)

evict_if-some :
    (b : Bool) (es : List (Text × Lane)) (s : Ledger)
    → OnSome (Within (length s.lanes) s) (evict_if b es s)
unfolding evict_if
evict_if-some true es s = evict-some es s
evict_if-some false es s = (omega arith, refl)

evict_if-all :
    (s : Ledger)
    → length s.lanes ≤ max_lanes
    → OnSome (Within 4095 s) (evict_if (leb max_lanes (length s.lanes)) s.lanes s)
unfolding evict_if
evict_if-all s h = elim (Bool-cases (leb max_lanes (length s.lanes))) [
  | inl full ↦ rw full (evict-all s.lanes s.calls 4095 h)
  | inr room ↦ rw room (ground arith, refl)
]

-- What opening a lane achieves.
abbrev pub Opened : Request → Option Text → Ledger → Ledger → Type 0
Opened r owner s t =
    (length t.lanes ≤ max_lanes)
    × (performs t.calls ≡ performs s.calls)
    × (lookup r.client_id t.lanes ≡ some (new_lane r owner))

pub open_lane-Opened :
    (o : Options) (r : Request) (owner : Option Text) (s : Ledger)
    → length s.lanes ≤ max_lanes
    → OnSome (Opened r owner s) (open_lane o r owner s)
unfolding open_lane
open_lane-Opened o r owner s h =
    let open_lanes = keep (λ (e : Text × Lane). not e.1.closed) s.lanes in
    bind-OnSome (Within (length s.lanes) s) (Opened r owner s) _ _
      (evict_if-some (leb o.limit (length open_lanes)) open_lanes s)
      (λ s₁ w₁.
        bind-OnSome (Within 4095 s₁) (Opened r owner s) _ _ (evict_if-all s₁ (omega arith))
          (λ s₂ w₂. (
            omega (arith, length-put r.client_id (new_lane r owner) s₂.lanes),
            w₂.1 ∙ w₁.1,
            rw (lookup-put, same_refl),
          )))
