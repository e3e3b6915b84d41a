-- ===== src/Term/Resume/Store.antt =====
-- The cached output: what is remembered of it, saved and restored.
pub mod Replay
use vibetop.Base.{
  ℕ, zero, suc, ◌+◌, ◌-◌, ◌*◌, Bool, true, false, ◌&&◌, ◌||◌, not, Option, none, some, List, [],
  ◌∷◌, ◌++◌, if◌then◌else◌, ltb, leb, ◌==◌, length, Text, same_option, max,
}
use vibetop.Term.Resume.{Offset, unset, other, at, Frame, Cache, Action, save, changed}

-- `LIMIT`
abbrev pub limit : ℕ
limit = 64 * 1024 * 1024

-- Sizes are never negative, and chunks are texts.
unfoldable pub valid : Option Cache → Option (Text × ℕ)
valid none = none
valid (some c) = valid_at c.epoch c.offset c.size
  where
    valid_at : Option Text → Offset → ℕ → Option (Text × ℕ)
    valid_at (some epoch) (at n) size = if leb size limit then some (epoch, n) else none
    valid_at none offset size = none
    valid_at (some epoch) unset size = none
    valid_at (some epoch) other size = none

abbrev pub is_unset : Offset → Bool
is_unset unset = true
is_unset other = false
is_unset (at n) = false

abbrev pub is_at : Offset → Bool
is_at unset = false
is_at other = false
is_at (at n) = true

-- The cache that a frame is added to.
pub renewed : Frame → Option Cache → Option Cache
renewed frame c =
    if frame.reset
    then some (record { epoch = frame.epoch; offset = unset; chunks = []; size = 0 })
    else c

-- A frame of the same epoch, whose decoded text is `chunk`. The first complete replay is saved at once.
pub extend : Frame → (payload chunk : Text) → Cache → Option Cache × List Action
extend frame payload chunk c =
    let size = c.size + length chunk in
    let chunks = if length chunk == 0 then c.chunks else c.chunks ++ payload ∷ [] in
    if ltb limit size then (none, changed ∷ []) else (
      some (record c { size = size; chunks = chunks; offset = frame.offset }),
      if is_unset c.offset && is_at frame.offset then save ∷ [] else changed ∷ [],
    )

-- `remember`, where `atob` has decoded the payload.
unfoldable pub remember : Frame → (payload chunk : Text) → Option Cache → Option Cache × List Action
unfolding extend renewed
remember frame payload chunk c = remember_in (renewed frame c)
  where
    remember_in : Option Cache → Option Cache × List Action
    remember_in none = (none, [])
    remember_in (some d) =
        if same_option d.epoch frame.epoch then extend frame payload chunk d else (some d, [])

-- The queries that a terminal would answer, such as `ESC [ 0 c`: the length of one at the start of a text.
abbrev pub in_class : List ℕ → ℕ → Bool
in_class marks c = (leb 48 c && leb c 57) || any marks
  where
    any : List ℕ → Bool
    any [] = false
    any (m ∷ ms) = c == m || any ms

-- The characters of a class, and then one of the given ends; none of the classes has the first
-- character of its end.
pub class_then : List ℕ → List Text → ℕ → Text → Option ℕ
class_then marks ends n [] = none
class_then marks ends n (x ∷ xs) =
    let more = class_then marks ends (n + 1) xs in if in_class marks x then more else ends_here ends
  where
    starts : Text → Text → Bool
    starts [] ys = true
    starts (e ∷ es) [] = false
    starts (e ∷ es) (y ∷ ys) = e == y && starts es ys

    ends_here : List Text → Option ℕ
    ends_here [] = none
    ends_here (e ∷ es) = if starts e (x ∷ xs) then some (n + length e) else ends_here es

-- The alternatives of the pattern, after `ESC [` and `ESC ]`.
pub query_length : Text → Option ℕ
unfolding class_then
query_length (esc ∷ bracket ∷ rest) =
    let control = first_of (class_then (59 ∷ 63 ∷ 62 ∷ 61 ∷ []) ((99 ∷ []) ∷ []) 2 rest) (
      first_of (class_then (59 ∷ 63 ∷ []) ((110 ∷ []) ∷ []) 2 rest)
        (class_then (59 ∷ 63 ∷ []) ((36 ∷ 112 ∷ []) ∷ []) 2 rest)) in
    let system = class_then (59 ∷ []) ((63 ∷ 7 ∷ []) ∷ (63 ∷ 27 ∷ 92 ∷ []) ∷ []) 2 rest in
    if esc == 27 && bracket == 91
    then control
    else if esc == 27 && bracket == 93
    then system
    else none
  where
    first_of : Option ℕ → Option ℕ → Option ℕ
    first_of none b = b
    first_of (some n) b = some n
query_length (esc ∷ []) = none
query_length [] = none

-- The text without the queries; a number of its first characters belong to one that has begun.
unfoldable pub without_queries : ℕ → Text → Text
unfolding query_length
without_queries skip [] = []
without_queries (suc skip) (x ∷ xs) = without_queries skip xs
without_queries zero (x ∷ xs) = elim (query_length (x ∷ xs)) [
  | none ↦ x ∷ without_queries zero xs
  | some n ↦ without_queries (n - 1) xs
]

abbrev pub join_texts : Option Text → Option Text → Option Text
join_texts (some a) (some b) = some (a ++ b)
join_texts (some a) none = none
join_texts none b = none

module _ (atob : Text → Option Text) where
  -- `cache.chunks.map(atob).join('')`, or nothing where one does not decode.
  pub decoded : List Text → Option Text
  decoded [] = some []
  decoded (c ∷ cs) = join_texts (atob c) (decoded cs)

  unfoldable pub restored : Option Cache → Option Text
  unfolding decoded without_queries
  restored none = some []
  restored (some c) = elim (decoded c.chunks) [
    | none ↦ none
    | some t ↦ some (without_queries zero t)
  ]

-- A saved row: its name, size and time.
pub record Row : Type 0 where
  pub key : Text
  pub size : ℕ
  pub saved_at : ℕ

-- `entries.sort((a, b) => b.at - a.at)`, which is stable.
pub insert_row : Row → List Row → List Row
insert_row r [] = r ∷ []
insert_row r (s ∷ rows) =
    let rest = insert_row r rows in if ltb s.saved_at r.saved_at then r ∷ s ∷ rows else s ∷ rest

pub newest_first : List Row → List Row
unfolding insert_row
newest_first rows = sort_into rows []
  where
    sort_into : List Row → List Row → List Row
    sort_into [] sorted = sorted
    sort_into (r ∷ rows) sorted = sort_into rows (insert_row r sorted)

-- The rows that a prune keeps: the newest, as long as neither their number nor their size is too large.
pub kept_rows : (index total : ℕ) → List Row → List Row
kept_rows i total [] = []
kept_rows i total (r ∷ rows) =
    let rest = kept_rows (i + 1) (total + r.size) rows in
    if leb 8 i || ltb (128 * 1024 * 1024) (total + r.size) then rest else r ∷ rest

pub prune : List Row → List Row
unfolding newest_first kept_rows
prune rows = kept_rows 0 0 (newest_first rows)
