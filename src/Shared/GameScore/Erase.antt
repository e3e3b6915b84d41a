-- ===== src/Shared/GameScore/Erase.antt =====
-- What the storage holds: the import happens once, a recorded table is read back, and a reset forgets.
use vibetop.Base.{
  ℕ, ◌≡◌, refl, ◌∙◌, ap, Bool, true, false, ◌&&◌, ◌||◌, Option, none, some, List, [], ◌∷◌, map,
  if_elim, ltb, arith, Bool-cases, inl, inr, Text, same, lookup, put, remove, lookup-put_same,
  lookup-remove, same_refl, lookup-remove-none,
}
use vibetop.Shared.GameScore.{
  Entry, Options, Disk, Marked, before, sort_onto, table, record_run, migrate, migrate_with,
  migrate_seed, stored, list_of, entries, read, write, reset, remove_all, is_marked, seed_value,
  or_empty, mark, is_empty, row, stats_of, read_stats, no_stats, or_no_stats,
}
use vibetop.Shared.GameScore.Sorting.{sort_sorted}
use vibetop.Shared.GameScore.Table.{before_trans, record_run-IsTable, entry_of}

is_marked-mark : (game : Text) (d : Disk) → is_marked (lookup game (mark game d).seeded) ≡ true
is_marked-mark game d = ap is_marked (lookup-put_same game true d.seeded)

-- Whether the import of a game is over.
abbrev IsSeeded : Options → Disk → Type 0
IsSeeded o d = is_marked (lookup o.game d.seeded) ≡ true

migrate_seed-IsSeeded : (o : Options) (seed : Text) (d : Disk) → IsSeeded o (migrate_seed o seed d)
unfolding migrate_seed write
migrate_seed-IsSeeded o seed d =
    let all = read o.game d in
    let v = seed_value (lookup seed d.seeds) in
    if_elim (IsSeeded o) (is_marked (lookup o.game d.seeded)) (λ done. done)
      (λ new.
        if_elim (IsSeeded o) (is_empty (or_empty (lookup o.board all)) && ltb 0 v)
          (λ imported.
            is_marked-mark o.game
              (write o.game (put o.board (some (record { v = v; t = 0; s = none }) ∷ []) all) d))
          (λ nothing. is_marked-mark o.game d))

migrate_seed_seeded :
    (o : Options) (seed : Text) (d : Disk) → IsSeeded o d → migrate_seed o seed d ≡ d
unfolding migrate_seed
migrate_seed_seeded o seed d h = rw h refl

migrate_with-again :
    (o : Options) (seed : Option Text) (d : Disk)
    → migrate_with o seed (migrate_with o seed d) ≡ migrate_with o seed d
unfolding migrate_with
migrate_with-again o none d = refl
migrate_with-again o (some seed) d =
    migrate_seed_seeded o seed (migrate_seed o seed d) (migrate_seed-IsSeeded o seed d)

-- The import of a legacy score happens once: a second one changes nothing.
migrate-migrate : (o : Options) (d : Disk) → migrate o (migrate o d) ≡ migrate o d
unfolding migrate
migrate-migrate o d = migrate_with-again o o.seed d

-- A run changes the rows of its game only.
run_with_again :
    (o : Options) (seed : Option Text) (all : List (Text × List (Option Entry))) (d : Disk)
    → migrate_with o seed (write o.game all (migrate_with o seed d))
      ≡ write o.game all (migrate_with o seed d)
unfolding migrate_with write
run_with_again o none all d = refl
run_with_again o (some seed) all d =
    migrate_seed_seeded o seed (write o.game all (migrate_seed o seed d))
      (migrate_seed-IsSeeded o seed d)

entries-rows : (ms : List Marked) → entries (map row ms) ≡ map entry_of ms
unfolding entries
entries-rows [] = refl
entries-rows (m ∷ ms) = ap (λ es. m.0 ∷ es) (entries-rows ms)

stored-write :
    (o : Options) (ms : List Marked) (d : Disk)
    → stored o (write o.game (put o.board (map row ms) (read o.game d)) d) ≡ map entry_of ms
unfolding stored read write
stored-write o ms d =
    ap (λ all. entries (or_empty (lookup o.board (or_empty all))))
      (lookup-put_same o.game (put o.board (map row ms) (read o.game d)) d.scores)
    ∙ ap (λ rows. entries (or_empty rows)) (lookup-put_same o.board (map row ms) (read o.game d))
    ∙ entries-rows ms

-- The table that a run was recorded in is the one that is listed next, in the same order, and
-- listing it changes nothing in the storage.
list_of-record_run :
    (o : Options) (now : ℕ) (d : Disk)
    → list_of o (record_run o now d).0 ≡ ((record_run o now d).0, (record_run o now d).2)
unfolding list_of record_run migrate
list_of-record_run o now d =
    let d' = migrate o d in
    let ms = table o now (stored o d') in
    let e = (record_run o now d).0 in
    let same_disk : migrate o e ≡ e =
      run_with_again o o.seed (put o.board (map row ms) (read o.game d')) d in
    let rows : stored o e ≡ map entry_of ms = stored-write o ms d' in
    rw
      (
        same_disk,
        rows,
        sort_sorted (before o.lower) (map entry_of ms) (before_trans o.lower)
            (record_run-IsTable o now d).0,
      )
      refl

-- Whether a key is among those to remove.
unfoldable pub is_listed : Text → List Text → Bool
is_listed k [] = false
is_listed k (j ∷ js) = same j k || is_listed k js

remove_all-none :
    (k : Text) (js : List Text) (m : List (Text × ℕ))
    → lookup k m ≡ none
    → lookup k (remove_all js m) ≡ none
unfolding remove_all
remove_all-none k [] m h = h
remove_all-none k (j ∷ js) m h = remove_all-none k js (remove j m) (lookup-remove-none k j m h)

lookup-remove_all :
    (k : Text) (js : List Text) (m : List (Text × ℕ))
    → is_listed k js ≡ true
    → lookup k (remove_all js m) ≡ none
unfolding remove_all is_listed
lookup-remove_all k [] m h = ground arith
lookup-remove_all k (j ∷ js) m h = elim (Bool-cases (same j k)) [
  | inl here ↦ remove_all-none k js (remove j m) (ground (arith, lookup-remove j k m))
  | inr there ↦ lookup-remove_all k js (remove j m) (ground arith)
]

lookup-remove_same {ℓ} :
    {V : Type ℓ} (k : Text) (m : List (Text × V)) → lookup k (remove k m) ≡ none
lookup-remove_same k m = ground (arith, lookup-remove k k m, same_refl k)

-- The legacy key that a game seeds from is among those to remove, if there is one.
abbrev pub IsCovered : Option Text → List Text → Type 0
IsCovered none seeds = Unit
IsCovered (some seed) seeds = is_listed seed seeds ≡ true

stored-mark : (o : Options) (d : Disk) → stored o (mark o.game d) ≡ stored o d
unfolding stored read
stored-mark o d = refl

stored-none : (o : Options) (d : Disk) → lookup o.game d.scores ≡ none → stored o d ≡ []
unfolding stored read entries lookup
stored-none o d h = rw h refl

-- Without a legacy score there is nothing to import.
stored-migrate_seed :
    (o : Options) (seed : Text) (d : Disk)
    → lookup seed d.seeds ≡ none
    → stored o (migrate_seed o seed d) ≡ stored o d
unfolding migrate_seed
stored-migrate_seed o seed d h =
    let all = read o.game d in
    let v = seed_value (lookup seed d.seeds) in
    let nothing : v ≡ 0 = ap seed_value h in
    if_elim (λ e. stored o e ≡ stored o d) (is_marked (lookup o.game d.seeded)) (λ done. refl)
      (λ new.
        if_elim (λ e. stored o e ≡ stored o d) (is_empty (or_empty (lookup o.board all)) && ltb 0 v)
          (λ imported. ground arith) (λ plain. stored-mark o d))

stored-migrate_with :
    (o : Options) (seed : Option Text) (seeds : List Text) (d : Disk)
    → IsCovered seed seeds
    → stored o (migrate_with o seed (reset o.game seeds d)) ≡ []
unfolding migrate_with reset
stored-migrate_with o none seeds d h =
    stored-none o (reset o.game seeds d) (lookup-remove_same o.game d.scores)
stored-migrate_with o (some seed) seeds d h =
    stored-migrate_seed o seed (reset o.game seeds d) (lookup-remove_all seed seeds d.seeds h)
    ∙ stored-none o (reset o.game seeds d) (lookup-remove_same o.game d.scores)

-- After a reset that takes the legacy key with it, the table of the game is empty on every board, and
-- so are its statistics: the import does not bring the forgotten score back.
list_of-reset :
    (o : Options) (seeds : List Text) (d : Disk)
    → IsCovered o.seed seeds
    → ((list_of o (reset o.game seeds d)).1 ≡ [])
      × (stats_of o.game o.board (reset o.game seeds d) ≡ no_stats)
unfolding list_of migrate reset stats_of read_stats lookup
list_of-reset o seeds d h = (
  ap (sort_onto (before o.lower) []) (stored-migrate_with o o.seed seeds d h),
  ap (λ m. or_no_stats (lookup o.board (or_empty m))) (lookup-remove_same o.game d.stats),
)
