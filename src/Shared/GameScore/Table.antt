-- ===== src/Shared/GameScore/Table.antt =====
-- The table after a run: ranked, of ten rows at most, with one row at most for each played game.
use vibetop.Base.{
  ℕ, suc, ◌+◌, ◌≤◌, ◌≡◌, refl, ap, Bool, true, false, not, List, [], ◌∷◌, ◌++◌, map, if◌then◌else◌,
  length, take, keep, arith, length-take,
}
use vibetop.Shared.GameScore.{
  Entry, Options, Disk, Marked, before, before_marked, sort_onto, is_mine, is_import, others, table,
  record_run, new_entry, keep_rows, migrate, stored, old,
}
use vibetop.Shared.GameScore.Sorting.{
  IsSorted, sort_onto-IsSorted, take-IsSorted, count_if, count_if-sort_onto, count_if-append,
  count_if-take, count_if-keep, count_if-keep-not,
}

before_asym : (lower : Bool) (a b : Entry) → before lower a b ≡ true → before lower b a ≡ false
unfolding before
before_asym true a b h = ground arith
before_asym false a b h = ground arith

pub before_trans :
    (lower : Bool) (a b c : Entry)
    → before lower b a ≡ false
    → before lower c b ≡ false
    → before lower c a ≡ false
unfolding before
before_trans true a b c h k = ground arith
before_trans false a b c h k = ground arith

abbrev pub entry_of : Marked → Entry
entry_of m = m.0

map-IsSorted :
    (lower : Bool) (ms : List Marked)
    → IsSorted (before_marked lower) ms
    → IsSorted (before lower) (map entry_of ms)
unfolding IsSorted
map-IsSorted lower [] h = tt
map-IsSorted lower (m ∷ []) h = tt
map-IsSorted lower (m ∷ n ∷ ms) (next, h) = (next, map-IsSorted lower (n ∷ ms) h)

count_if-map :
    (p : Entry → Bool) (ms : List Marked)
    → count_if p (map entry_of ms) ≡ count_if (λ (m : Marked). p m.0) ms
unfolding count_if
count_if-map p [] = refl
count_if-map p (m ∷ ms) = ap (λ n. (if p m.0 then 1 else 0) + n) (count_if-map p ms)

count_if-old :
    (p : Entry → Bool) (es : List Entry)
    → count_if (λ (m : Marked). p m.0) (map old es) ≡ count_if p es
unfolding count_if
count_if-old p [] = refl
count_if-old p (e ∷ es) = ap (λ n. (if p e then 1 else 0) + n) (count_if-old p es)

length-map : (ms : List Marked) → length (map entry_of ms) ≡ length ms
length-map [] = refl
length-map (m ∷ ms) = ap suc (length-map ms)

-- What the rows of a table are to satisfy.
abbrev pub IsTable : Options → List Entry → Type 0
IsTable o es =
    IsSorted (before o.lower) es × (length es ≤ keep_rows) × (count_if (is_mine o.session) es ≤ 1)

table-IsTable :
    (o : Options) (now : ℕ) (es : List Entry) → IsTable o (map entry_of (table o now es))
unfolding table others count_if
table-IsTable o now es =
    let mine = is_mine o.session in
    let p : Marked → Bool = λ m. mine m.0 in
    let kept = others o es in
    let all = map old kept ++ (new_entry o now, true) ∷ [] in
    let sorted = sort_onto (before_marked o.lower) [] all in
    let none_left : count_if mine kept ≤ 0 = omega (
      arith,
      count_if-keep mine (λ e. not (is_import o.value e)) (keep (λ e. not (mine e)) es),
      count_if-keep-not mine es,
    ) in
    (
      map-IsSorted o.lower (take keep_rows sorted) (
          take-IsSorted (before_marked o.lower) keep_rows sorted (
            sort_onto-IsSorted (before_marked o.lower) [] all (λ a b. before_asym o.lower a.0 b.0)
              (unfold IsSorted in tt))),
      omega (arith, length-map (take keep_rows sorted), length-take keep_rows sorted),
      ground (
        arith,
        none_left,
        count_if-map mine (take keep_rows sorted),
        count_if-take p keep_rows sorted,
        count_if-sort_onto p (before_marked o.lower) [] all,
        count_if-append p (map old kept) ((new_entry o now, true) ∷ []),
        count_if-old mine kept,
      ),
    )

pub record_run-IsTable : (o : Options) (now : ℕ) (d : Disk) → IsTable o (record_run o now d).2
unfolding record_run
record_run-IsTable o now d = table-IsTable o now (stored o (migrate o d))
