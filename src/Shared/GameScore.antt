-- ===== src/Shared/GameScore.antt =====
-- shared/gamescore.js: the tables of best scores and the statistics of the games, in the browser's
-- local storage. The storage is modelled as it is while it works; a table is stored as its rows, of
-- which a row that is no entry (`none`) stands for whatever else a stored list may hold. Ranked
-- values and times are natural numbers, and time 0 is that of an undated row. The number that
-- `parseInt` reads from a legacy key is stored in its place.
pub mod Sorting
pub mod Table
pub mod Streaks
pub mod Erase
mod Tests
use vibetop.Base.{
  ℕ, zero, suc, ◌+◌, Bool, true, false, ◌&&◌, ◌||◌, not, Option, none, some, List, [], ◌∷◌, ◌++◌,
  map, if◌then◌else◌, ◌==◌, ltb, leb, length, take, keep, Text, same, same_option, lookup, put,
  remove, max,
}

pub record Entry : Type 0 where
  pub v : ℕ
  pub t : ℕ
  pub s : Option Text

pub record Stats : Type 0 where
  pub n : ℕ
  pub w : ℕ
  pub cur : ℕ
  pub best : ℕ
  pub x : List (Text × ℕ)

-- The local storage: per game the boards of rows, the boards of statistics and the marker of the
-- import; and the legacy keys.
pub record Disk : Type 0 where
  pub scores : List (Text × List (Text × List (Option Entry)))
  pub stats : List (Text × List (Text × Stats))
  pub seeded : List (Text × Bool)
  pub seeds : List (Text × ℕ)

-- The options of a call; a missing or empty session or seed is `none`, a missing board the empty text.
pub record Options : Type 0 where
  pub game : Text
  pub board : Text
  pub value : ℕ
  pub lower : Bool
  pub session : Option Text
  pub seed : Option Text

abbrev pub keep_rows : ℕ
keep_rows = 10

abbrev pub or_empty {ℓ} : {A : Type ℓ} → Option (List A) → List A
or_empty none = []
or_empty (some xs) = xs

-- `readKey`, for each of the two prefixes.
pub read : Text → Disk → List (Text × List (Option Entry))
read game d = or_empty (lookup game d.scores)

pub read_stats : Text → Disk → List (Text × Stats)
read_stats game d = or_empty (lookup game d.stats)

pub write : Text → List (Text × List (Option Entry)) → Disk → Disk
write game all d = record d { scores = put game all d.scores }

write_stats : Text → List (Text × Stats) → Disk → Disk
write_stats game all d = record d { stats = put game all d.stats }

abbrev pub no_stats : Stats
no_stats = record { n = 0; w = 0; cur = 0; best = 0; x = [] }

abbrev pub or_no_stats : Option Stats → Stats
or_no_stats none = no_stats
or_no_stats (some s) = s

pub stats_of : Text → Text → Disk → Stats
unfolding read_stats
stats_of game board d = or_no_stats (lookup board (read_stats game d))

-- Whether `sorter` puts `a` strictly before `b`.
pub before : (lower : Bool) → Entry → Entry → Bool
before lower a b = if a.v == b.v then ltb a.t b.t else if lower then ltb a.v b.v else ltb b.v a.v

-- The rows of a stored list that are entries.
pub entries : List (Option Entry) → List Entry
entries [] = []
entries (none ∷ rows) = entries rows
entries (some e ∷ rows) = e ∷ entries rows

-- `Array.prototype.sort`, which is stable: each element goes behind those that are not after it.
module _ {A : Type 0} (less : A → A → Bool) where
  pub insert : A → List A → List A
  insert a [] = a ∷ []
  insert a (b ∷ bs) = let rest = insert a bs in if less a b then a ∷ b ∷ bs else b ∷ rest

  pub sort_onto : List A → List A → List A
  unfolding insert
  sort_onto sorted [] = sorted
  sort_onto sorted (a ∷ rest) = sort_onto (insert a sorted) rest

-- The import of a single best score from before the tables.
abbrev pub is_marked : Option Bool → Bool
is_marked none = false
is_marked (some _) = true

abbrev pub seed_value : Option ℕ → ℕ
seed_value none = 0
seed_value (some v) = v

abbrev pub is_empty : List (Option Entry) → Bool
is_empty [] = true
is_empty (_ ∷ _) = false

abbrev pub mark : Text → Disk → Disk
mark game d = record d { seeded = put game true d.seeded }

pub migrate_seed : Options → Text → Disk → Disk
unfolding read write
migrate_seed o seed d =
    let all = read o.game d in
    let v = seed_value (lookup seed d.seeds) in
    if is_marked (lookup o.game d.seeded)
    then d
    else if is_empty (or_empty (lookup o.board all)) && ltb 0 v
    then mark o.game
        (write o.game (put o.board (some (record { v = v; t = 0; s = none }) ∷ []) all) d)
    else mark o.game d

pub migrate_with : Options → Option Text → Disk → Disk
unfolding migrate_seed
migrate_with o none d = d
migrate_with o (some seed) d = migrate_seed o seed d

pub migrate : Options → Disk → Disk
unfolding migrate_with
migrate o d = migrate_with o o.seed d

pub stored : Options → Disk → List Entry
unfolding read entries
stored o d = entries (or_empty (lookup o.board (read o.game d)))

pub list_of : Options → Disk → Disk × List Entry
unfolding migrate stored sort_onto before
list_of o d = let d' = migrate o d in (d', sort_onto (before o.lower) [] (stored o d'))

abbrev pub is_mine : Option Text → Entry → Bool
is_mine none e = false
is_mine (some session) e = same_option e.s (some session)

-- Whether the row is the legacy import of the very value that was just played.
abbrev pub is_import : ℕ → Entry → Bool
is_import value e = e.t == 0 && e.v == value

-- The rows that `record` keeps before it adds the new one.
pub others : Options → List Entry → List Entry
others o es = keep (λ e. not (is_import o.value e)) (keep (λ e. not (is_mine o.session e)) es)

-- An entry, and whether it is the very object that `record` has made.
abbrev pub Marked : Type 0
Marked = Entry × Bool

abbrev pub old : Entry → Marked
old e = (e, false)

abbrev pub before_marked : (lower : Bool) → Marked → Marked → Bool
before_marked lower a b = before lower a.0 b.0

-- `list.indexOf(entry) + 1`
rank_of : List Marked → ℕ
rank_of [] = 0
rank_of ((e, true) ∷ ms) = 1
rank_of ((e, false) ∷ ms) = let r = rank_of ms in if r == 0 then 0 else r + 1

abbrev pub new_entry : Options → ℕ → Entry
new_entry o now = record { v = o.value; t = now; s = o.session }

-- The table after the new run: sorted, and cut at ten rows.
pub table : Options → ℕ → List Entry → List Marked
unfolding others sort_onto before
table o now es =
    take keep_rows
      (sort_onto (before_marked o.lower) [] (map old (others o es) ++ (new_entry o now, true) ∷ []))

abbrev pub row : Marked → Option Entry
row m = some m.0

pub record_run : Options → ℕ → Disk → Disk × ℕ × List Entry
unfolding migrate read stored table rank_of write
record_run o now d =
    let d' = migrate o d in
    let ms = table o now (stored o d') in
    (
      write o.game (put o.board (map row ms) (read o.game d')) d',
      rank_of ms,
      map (λ (m : Marked). m.0) ms,
    )

-- The high-water marks of a finished game.
abbrev pub high : Option ℕ → ℕ → ℕ
high none v = v
high (some u) v = if ltb v u then u else v

raise : List (Text × ℕ) → List (Text × ℕ) → List (Text × ℕ)
raise [] x = x
raise ((k, v) ∷ extra) x = raise extra (put k (high (lookup k x) v) x)

pub finished : (won : Bool) → List (Text × ℕ) → Stats → Stats
unfolding raise
finished true extra s = record {
  n = s.n + 1;
  w = s.w + 1;
  cur = s.cur + 1;
  best = max s.best (s.cur + 1);
  x = raise extra s.x;
}
finished false extra s = record {
  n = s.n + 1;
  w = s.w;
  cur = 0;
  best = s.best;
  x = raise extra s.x;
}

pub finish : Text → Text → Bool → List (Text × ℕ) → Disk → Disk × Stats
unfolding finished stats_of read_stats write_stats
finish game board won extra d =
    let s = finished won extra (stats_of game board d) in
    (write_stats game (put board s (read_stats game d)) d, s)

pub remove_all : List Text → List (Text × ℕ) → List (Text × ℕ)
remove_all [] m = m
remove_all (k ∷ ks) m = remove_all ks (remove k m)

pub reset : Text → List Text → Disk → Disk
unfolding remove_all
reset game seeds d = record {
  scores = remove game d.scores;
  stats = remove game d.stats;
  seeded = remove game d.seeded;
  seeds = remove_all seeds d.seeds;
}

-- `isMe`: whether a row is the run to highlight.
is_me : Entry → Option Entry → Bool
is_me e none = false
is_me e (some hl) = elim hl.s [
  | none ↦ e.v == hl.v && e.t == hl.t
  | some s ↦ same_option e.s (some s)
]
