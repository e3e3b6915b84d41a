-- ===== src/Lite/History/Place.antt =====
-- What a change of an entry and a new entry keep of the journal.
use vibetop.Base.{
  ℕ, zero, suc, ◌+◌, ◌-◌, ◌≤◌, ◌<◌, ◌≡◌, refl, sym, subst, ◌∙◌, ap, Option, some, List, [], ◌∷◌,
  ◌++◌, if_elim, ltb, ltb→lt, lt→ltb, arith, length, take, drop, get_elem?, length-append,
  length-take, Text,
}
use vibetop.Lite.History.{
  Entry, Journal, max_entries, adjust, with_scroll, physical_at, save_scroll, append_entry,
}

-- The place is one of the journal's, which has at most fifty entries.
pub record IsJournal (s : Journal) : Type 0 where
  pub here : s.index < length s.entries
  pub bounded : length s.entries ≤ 50

-- The current entry has the address of the page.
abbrev pub Synced : Journal → Type 0
Synced s = some s.page.physical ≡ physical_at (get_elem? s.entries s.index)

get_elem?-last {ℓ} :
    {A : Type ℓ} (xs : List A) (x : A) → get_elem? (xs ++ x ∷ []) (length xs) ≡ some x
get_elem?-last [] x = refl
get_elem?-last (_ ∷ xs) x = get_elem?-last xs x

get_elem?-drop {ℓ} :
    {A : Type ℓ} (xs : List A) (i : ℕ) → get_elem? (drop 1 xs) i ≡ get_elem? xs (suc i)
get_elem?-drop [] i = refl
get_elem?-drop (_ ∷ xs) i = refl

length-tail {ℓ} : {A : Type ℓ} (xs : List A) → length (drop 1 xs) ≡ length xs - 1
length-tail [] = refl
length-tail (_ ∷ xs) = omega arith

pub length-adjust :
    (i : ℕ) (f : Entry → Entry) (es : List Entry) → length (adjust i f es) ≡ length es
unfolding adjust
length-adjust i f [] = refl
length-adjust zero f (e ∷ es) = refl
length-adjust (suc i) f (e ∷ es) = omega (arith, length-adjust i f es)

-- A change that keeps the addresses.
physical-adjust :
    (i : ℕ) (f : Entry → Entry) (es : List Entry) (j : ℕ)
    → ((e : Entry) → (f e).page.physical ≡ e.page.physical)
    → physical_at (get_elem? (adjust i f es) j) ≡ physical_at (get_elem? es j)
unfolding adjust physical_at
physical-adjust i f [] j h = refl
physical-adjust zero f (e ∷ es) zero h = ap some (h e)
physical-adjust zero f (e ∷ es) (suc j) h = refl
physical-adjust (suc i) f (e ∷ es) zero h = refl
physical-adjust (suc i) f (e ∷ es) (suc j) h = physical-adjust i f es j h

pub get_elem?-adjust :
    (i : ℕ) (f : Entry → Entry) (es : List Entry) (p : Text)
    → i < length es
    → ((e : Entry) → (f e).page.physical ≡ p)
    → some p ≡ physical_at (get_elem? (adjust i f es) i)
unfolding adjust physical_at
get_elem?-adjust i f [] p inside h = ground arith
get_elem?-adjust zero f (e ∷ es) p inside h = ap some (sym (h e))
get_elem?-adjust (suc i) f (e ∷ es) p inside h = get_elem?-adjust i f es p (omega arith) h

pub current_page :
    (o : Option Entry) (e : Entry) (p : Text)
    → e.page.physical ≡ p
    → o ≡ some e
    → some p ≡ physical_at o
unfolding physical_at
current_page o e p same_page h = ap some (sym same_page) ∙ sym (ap physical_at h)

pub append_entry-Syncs :
    (e : Entry) (s : Journal)
    → IsJournal s
    → e.page.physical ≡ s.page.physical
    → IsJournal (append_entry e s) × Synced (append_entry e s)
unfolding append_entry physical_at
append_entry-Syncs e s h same_page =
    let longer = take (s.index + 1) s.entries ++ e ∷ [] in
    let size : length longer ≡ s.index + 2 = omega (
      arith,
      length-append (take (s.index + 1) s.entries) (e ∷ []),
      length-take (s.index + 1) s.entries,
      h.here,
    ) in
    let short : length (take (s.index + 1) s.entries) ≡ s.index + 1 =
      omega (arith, length-take (s.index + 1) s.entries, h.here) in
    let last : get_elem? longer (s.index + 1) ≡ some e =
      subst (λ n. get_elem? longer n ≡ some e) short
        (get_elem?-last (take (s.index + 1) s.entries) e) in
    if_elim (λ (t : Journal). IsJournal t × Synced t) (ltb max_entries (length longer))
      (λ full. (
        record {
          here = omega (arith, length-tail longer, size, ltb→lt max_entries (length longer) full);
          bounded = omega (arith, length-tail longer, size, h.here, h.bounded);
        },
        current_page _ e s.page.physical same_page (
            get_elem?-drop longer (length longer - 1 - 1)
            ∙ ap (get_elem? longer) (omega (arith, size))
            ∙ last),
      ))
      (λ room. (
        record {
          here = omega (arith, size);
          bounded = ground (arith, lt→ltb max_entries (length longer), room);
        },
        current_page _ e s.page.physical same_page
            (ap (get_elem? longer) (omega (arith, size)) ∙ last),
      ))

pub save_scroll-IsJournal : (s : Journal) → IsJournal s → IsJournal (save_scroll s)
unfolding save_scroll
save_scroll-IsJournal s h =
    let size = length-adjust s.index (with_scroll s.page) s.entries in
    record { here = omega (arith, h.here); bounded = omega (arith, h.bounded) }

pub save_scroll-Synced : (s : Journal) → Synced s → Synced (save_scroll s)
unfolding save_scroll
save_scroll-Synced s h =
    h ∙ sym (physical-adjust s.index (with_scroll s.page) s.entries s.index (λ e. refl))
