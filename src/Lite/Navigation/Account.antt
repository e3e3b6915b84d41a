-- ===== src/Lite/Navigation/Account.antt =====
-- The accounts of the store: its byte count is the sum of the captured bodies, no navigation is
-- stored twice, and the limits on their number and size hold, after every operation.
use vibetop.Base.{
  ℕ, ◌≤◌, ◌≡◌, refl, sym, ◌∙◌, ap, subst, Bool, ◌&&◌, not, Option, none, some, List, [], ◌∷◌,
  if◌then◌else◌, if_elim, arith, length, Text, same, lookup, put, remove, KeysDistinct,
  KeysDistinct-put, KeysDistinct-remove, total, total-put_old, total-remove, AllEntries,
  AllEntries-lookup, AllEntries-put, AllEntries-remove, length-put_old, length-remove, leb,
}
use vibetop.Lite.Navigation.{
  Navigation, Store, Options, is_dispatching, remove_record, cancel_found, cancel, collect_over,
  collect, owned_count, owned_bytes,
}

abbrev pub body_size : Navigation → ℕ
body_size r = length r.body

abbrev pub IsNamed : Text → Navigation → Type 0
IsNamed k r = r.challenge ≡ k

-- What one record adds to the count and to the bytes of a tab.
abbrev pub count_in : Text → Navigation → ℕ
count_in tab r = if same r.tab_id tab then 1 else 0

abbrev pub bytes_in : Text → Navigation → ℕ
bytes_in tab r = if same r.tab_id tab then length r.body else 0

pub owned_count-total :
    (tab : Text) (m : List (Text × Navigation)) → owned_count tab m ≡ total (count_in tab) m
unfolding owned_count
owned_count-total tab [] = refl
owned_count-total tab ((k, r) ∷ m) = rw (owned_count-total tab m)

pub owned_bytes-total :
    (tab : Text) (m : List (Text × Navigation)) → owned_bytes tab m ≡ total (bytes_in tab) m
unfolding owned_bytes
owned_bytes-total tab [] = refl
owned_bytes-total tab ((k, r) ∷ m) = rw (owned_bytes-total tab m)

pub record IsValid (o : Options) (s : Store) : Type 0 where
  pub counted : s.bytes ≡ total body_size s.pending
  pub distinct : KeysDistinct s.pending
  pub named : AllEntries IsNamed s.pending
  pub few : length s.pending ≤ o.max_pending
  pub light : s.bytes ≤ o.max_bytes
  pub fair : (tab : Text) → owned_count tab s.pending ≤ o.max_per_tab
  pub fair_bytes : (tab : Text) → owned_bytes tab s.pending ≤ o.max_bytes_per_tab

-- The record that is found under a challenge carries that challenge.
pub challenge_of_lookup :
    {o : Options} {s : Store} (id : Text) {r : Navigation}
    → IsValid o s
    → lookup id s.pending ≡ some r
    → lookup r.challenge s.pending ≡ some r
challenge_of_lookup {s = s} id {r} v h =
    subst (λ k. lookup k s.pending ≡ some r)
      (sym (AllEntries-lookup IsNamed id s.pending v.named h)) h

pub remove_record-IsValid :
    {o : Options} {s : Store} (r : Navigation)
    → IsValid o s
    → lookup r.challenge s.pending ≡ some r
    → IsValid o (remove_record r s)
unfolding remove_record
remove_record-IsValid {s = s} r v h =
    let k = r.challenge in
    let sum = total-remove body_size k r s.pending v.distinct h in
    record {
      counted = omega (arith, v.counted);
      distinct = KeysDistinct-remove k s.pending v.distinct;
      named = AllEntries-remove IsNamed k s.pending v.named;
      few = omega (arith, v.few, length-remove k s.pending);
      light = omega (arith, v.light);
      fair = λ tab. omega (
        arith,
        v.fair tab,
        owned_count-total tab s.pending,
        owned_count-total tab (remove k s.pending),
        total-remove (count_in tab) k r s.pending v.distinct h,
      );
      fair_bytes = λ tab. omega (
        arith,
        v.fair_bytes tab,
        owned_bytes-total tab s.pending,
        owned_bytes-total tab (remove k s.pending),
        total-remove (bytes_in tab) k r s.pending v.distinct h,
      );
    }

-- A found record is replaced by one with the same challenge and body.
pub update-IsValid :
    {o : Options} {s : Store} (r r' : Navigation) (ts : List (Text × Text))
    → IsValid o s
    → lookup r.challenge s.pending ≡ some r
    → r'.challenge ≡ r.challenge
    → r'.body ≡ r.body
    → r'.tab_id ≡ r.tab_id
    → IsValid o (record s { pending = put r.challenge r' s.pending; tickets = ts })
update-IsValid {s = s} r r' ts v h named same_body same_tab =
    let k = r.challenge in
    record {
      counted = v.counted ∙ sym (total-put_old body_size k r r' s.pending h (ap length same_body));
      distinct = KeysDistinct-put k r' s.pending v.distinct;
      named = AllEntries-put IsNamed k r' s.pending named v.named;
      few = rw (length-put_old k r' s.pending h) v.few;
      light = v.light;
      fair = λ tab. omega (
        arith,
        v.fair tab,
        owned_count-total tab s.pending,
        owned_count-total tab (put k r' s.pending),
        total-put_old (count_in tab) k r r' s.pending h (rw same_tab),
      );
      fair_bytes = λ tab. omega (
        arith,
        v.fair_bytes tab,
        owned_bytes-total tab s.pending,
        owned_bytes-total tab (put k r' s.pending),
        total-put_old (bytes_in tab) k r r' s.pending h (rw (same_tab, same_body)),
      );
    }

cancel_found-IsValid :
    {o : Options} (found : Option Navigation) (id : Text) {s : Store}
    → lookup id s.pending ≡ found
    → IsValid o s
    → IsValid o (cancel_found found s).0
unfolding cancel_found
cancel_found-IsValid none id e v = v
cancel_found-IsValid {o} (some r) id {s} e v =
    if_elim (λ (x : Store × Bool). IsValid o x.0) (is_dispatching r.state) (λ _. v)
      (λ _. remove_record-IsValid r v (challenge_of_lookup id v e))

pub cancel-IsValid : {o : Options} {s : Store} (id : Text) → IsValid o s → IsValid o (cancel id s).0
unfolding cancel
cancel-IsValid {s = s} id v = cancel_found-IsValid (lookup id s.pending) id refl v

collect_over-IsValid :
    {o : Options} (now : ℕ) (es : List (Text × Navigation)) {s : Store}
    → IsValid o s
    → IsValid o (collect_over now es s)
unfolding collect_over
collect_over-IsValid now [] v = v
collect_over-IsValid {o} now ((id, r) ∷ es) v = collect_over-IsValid now es (
    if_elim (IsValid o) (leb r.expires now && not (is_dispatching r.state))
      (λ _. cancel-IsValid id v) (λ _. v))

pub collect-IsValid : {o : Options} {s : Store} (now : ℕ) → IsValid o s → IsValid o (collect now s)
unfolding collect
collect-IsValid {s = s} now v = collect_over-IsValid now s.pending v
