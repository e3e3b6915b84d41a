-- ===== src/Lite/Navigation/Room.antt =====
-- `capture` keeps the accounts of the store: the limits have room for what it admits.
use vibetop.Base.{
  ℕ, ◌+◌, ◌≤◌, ◌<◌, ◌≡◌, refl, sym, ◌∙◌, ap, subst, Bool, ◌&&◌, not, Option, none, some, List, [],
  ◌∷◌, if◌then◌else◌, if_elim, arith, length, Text, same, lookup, put, KeysDistinct-put, total,
  total-put_new, AllEntries-put, Bool-cases, inl, inr, eq_of_same, length-put, leb,
  lookup-remove-none,
}
use vibetop.Lite.Url.{Url}
use vibetop.Lite.Navigation.{
  Navigation, Store, Options, Capture, Result, ok, err, is_dispatching, admit, insert_record,
  capture, cancel, cancel_found, remove_record, collect, collect_over, owned_count, owned_bytes,
}
use vibetop.Lite.Navigation.Account.{
  IsValid, IsNamed, body_size, count_in, bytes_in, owned_count-total, owned_bytes-total,
  collect-IsValid,
}

-- What an admitted capture guarantees: the limits have room for it.
abbrev HasRoom : Options → Text → Capture → Store → Navigation → Type 0
HasRoom o challenge c s r =
    (r.challenge ≡ challenge)
    × (r.body ≡ c.body)
    × (r.tab_id ≡ c.tab_id)
    × (length s.pending < o.max_pending)
    × (s.bytes + length c.body ≤ o.max_bytes)
    × (owned_count c.tab_id s.pending < o.max_per_tab)
    × (length c.body + owned_bytes c.tab_id s.pending ≤ o.max_bytes_per_tab)

admit-HasRoom :
    (parse : Text → Option Url) (o : Options) (now : ℕ) (challenge : Text) (c : Capture) (s : Store)
    {r : Navigation}
    → admit parse o now challenge c s ≡ ok r
    → HasRoom o challenge c s r
unfolding admit
admit-HasRoom parse o now challenge c s h = ground arith

-- An identifier that no pending navigation has stays so when others are removed.
cancel_found-fresh :
    (id : Text) (found : Option Navigation) (s : Store)
    → lookup id s.pending ≡ none
    → lookup id (cancel_found found s).0.pending ≡ none
unfolding cancel_found remove_record
cancel_found-fresh id none s h = h
cancel_found-fresh id (some r) s h =
    if_elim (λ (x : Store × Bool). lookup id x.0.pending ≡ none) (is_dispatching r.state) (λ _. h)
      (λ _. lookup-remove-none id r.challenge s.pending h)

cancel-fresh :
    (id k : Text) (s : Store) → lookup id s.pending ≡ none → lookup id (cancel k s).0.pending ≡ none
unfolding cancel
cancel-fresh id k s h = cancel_found-fresh id (lookup k s.pending) s h

collect_over-fresh :
    (id : Text) (now : ℕ) (es : List (Text × Navigation)) (s : Store)
    → lookup id s.pending ≡ none
    → lookup id (collect_over now es s).pending ≡ none
unfolding collect_over
collect_over-fresh id now [] s h = h
collect_over-fresh id now ((k, r) ∷ es) s h = collect_over-fresh id now es _ (
    if_elim (λ (t : Store). lookup id t.pending ≡ none)
      (leb r.expires now && not (is_dispatching r.state)) (λ _. cancel-fresh id k s h) (λ _. h))

collect-fresh :
    (id : Text) (now : ℕ) (s : Store)
    → lookup id s.pending ≡ none
    → lookup id (collect now s).pending ≡ none
unfolding collect
collect-fresh id now s h = collect_over-fresh id now s.pending s h

-- Adding a measured record within a limit, for a measure that counts one tab only.
fair_put :
    (n : ℕ) (t : Text → List (Text × Navigation) → ℕ) (f : Text → Navigation → ℕ) (w : ℕ) (k : Text)
    (r : Navigation) (m : List (Text × Navigation)) (tab : Text)
    → ((tab : Text) (m : List (Text × Navigation)) → t tab m ≡ total (f tab) m)
    → f tab r ≡ (if same r.tab_id tab then w else 0)
    → lookup k m ≡ none
    → t tab m ≤ n
    → w + t r.tab_id m ≤ n
    → t tab (put k r m) ≤ n
fair_put n t f w k r m tab sum fr fresh old new = elim (Bool-cases (same r.tab_id tab)) [
  | inl mine ↦
      let here : w + t tab m ≤ n = subst (λ i. w + t i m ≤ n) (eq_of_same r.tab_id tab mine) new in
      let weight : f tab r ≡ w = fr ∙ rw mine refl in
      omega (arith, sum tab m, sum tab (put k r m), total-put_new (f tab) k r m fresh)
  | inr other ↦
      let weight : f tab r ≡ 0 = fr ∙ rw other refl in
      omega (arith, sum tab m, sum tab (put k r m), total-put_new (f tab) k r m fresh)
]

inserted-IsValid :
    (o : Options) (c : Capture) (r : Navigation) (s : Store)
    → HasRoom o r.challenge c s r
    → lookup r.challenge s.pending ≡ none
    → IsValid o s
    → IsValid o
        (record s { pending = put r.challenge r s.pending; bytes = s.bytes + length r.body })
inserted-IsValid o c r s (_, same_body, same_tab, few, light, fair, fair_bytes) fresh v =
    let k = r.challenge in
    let size : length r.body ≡ length c.body = ap length same_body in
    record {
      counted = omega (arith, v.counted, total-put_new body_size k r s.pending fresh);
      distinct = KeysDistinct-put k r s.pending v.distinct;
      named = AllEntries-put IsNamed k r s.pending refl v.named;
      few = omega (arith, length-put k r s.pending);
      light = omega arith;
      fair = λ tab.
          fair_put o.max_per_tab owned_count count_in 1 k r s.pending tab owned_count-total refl
            fresh (v.fair tab)
            (subst (λ t. 1 + owned_count t s.pending ≤ o.max_per_tab) (sym same_tab) (omega arith));
      fair_bytes = λ tab.
          fair_put o.max_bytes_per_tab owned_bytes bytes_in (length r.body) k r s.pending tab
            owned_bytes-total refl fresh (v.fair_bytes tab)
            (subst (λ t. length r.body + owned_bytes t s.pending ≤ o.max_bytes_per_tab)
              (sym same_tab) (omega arith));
    }

insert_record-IsValid :
    (o : Options) (challenge : Text) (c : Capture) (a : Result Navigation) (s : Store)
    → ((r : Navigation) → a ≡ ok r → HasRoom o challenge c s r)
    → lookup challenge s.pending ≡ none
    → IsValid o s
    → IsValid o (insert_record a s).0
unfolding insert_record
insert_record-IsValid o challenge c (err e) s room fresh v = v
insert_record-IsValid o challenge c (ok r) s room fresh v =
    let fits = room r refl in
    inserted-IsValid o c r s (refl, fits.1, fits.2, fits.3, fits.4, fits.5, fits.6)
      (subst (λ k. lookup k s.pending ≡ none) (sym fits.0) fresh) v

pub capture-IsValid :
    (parse : Text → Option Url) {o : Options} (now : ℕ) (challenge : Text) (c : Capture) {s : Store}
    → lookup challenge s.pending ≡ none
    → IsValid o s
    → IsValid o (capture parse o now challenge c s).0
unfolding capture
capture-IsValid parse {o} now challenge c {s} fresh v =
    let t = collect now s in
    insert_record-IsValid o challenge c (admit parse o now challenge c t) t
      (λ r e. admit-HasRoom parse o now challenge c t e) (collect-fresh challenge now s fresh)
      (collect-IsValid now v)
