-- ===== src/Lite/Workers.antt =====
-- apps/everyday/browser-lite/proxy/worker-store.cjs: the sources of workers, uploaded by one realm and fetched by it. A
-- waiter has a number, by which its answer is known. The clock, the random identifiers and the test of an identifier
-- that the page names are arguments; the metadata is left out.
pub mod Bounds
pub mod Steps
pub mod Told
pub mod Once
pub mod Isolated
mod Tests
use vibetop.Base.{
  ℕ, ◌+◌, ◌-◌, Bool, true, false, ◌&&◌, ◌||◌, not, Option, none, some, List, [], ◌∷◌, ◌++◌,
  if◌then◌else◌, ◌==◌, ltb, leb, length, keep, Text, same, lookup, put, remove, total,
}

pub record Item : Type 0 where
  pub physical : Text
  pub body : Text
  pub expires : ℕ

pub record Waiter : Type 0 where
  pub number : ℕ
  pub physical : Text

pub record Options : Type 0 where
  pub ttl : ℕ
  pub max_bytes : ℕ
  pub max_entries : ℕ
  pub max_total_bytes : ℕ
  pub max_total_entries : ℕ

pub record Store : Type 0 where
  pub entries : List (Text × Item)
  pub bytes : ℕ
  pub waiters : List (Text × List Waiter)
  pub failed : List (Text × ℕ)

abbrev pub empty : Store
empty = record { entries = []; bytes = 0; waiters = []; failed = [] }

-- What a waiter is told: a source, or nothing.
pub record Answer : Type 0 where
  pub number : ℕ
  pub physical : Text
  pub id : Text
  pub body : Option Text

abbrev pub has {ℓ} : {V : Type ℓ} → Text → List (Text × V) → Bool
has k m = elim (lookup k m) [ none ↦ false | some _ ↦ true ]

pub remove_entry : Text → Store → Store
unfolding lookup remove
remove_entry id s = elim (lookup id s.entries) [
  | none ↦ s
  | some item ↦ record s { bytes = s.bytes - length item.body; entries = remove id s.entries }
]

pub collect_entries : ℕ → List (Text × Item) → Store → Store
unfolding remove_entry
collect_entries now [] s = s
collect_entries now ((id, item) ∷ rest) s =
    let next = if leb item.expires now then remove_entry id s else s in
    collect_entries now rest next

pub collect : ℕ → Store → Store
unfolding collect_entries
collect now s =
    let t = collect_entries now s.entries s in
    record t { failed = keep (λ (e : Text × ℕ). not (leb e.1 now)) t.failed }

-- The entry of an identifier, for its own realm.
pub found : Text → Text → Store → Option Text
unfolding lookup same
found physical id s = elim (lookup id s.entries) [
  | none ↦ none
  | some item ↦ if same item.physical physical then some item.body else none
]

-- `get`
pub get : ℕ → Text → Text → Store → Store × Option Text
unfolding collect found
get now physical id s = (collect now s, found physical id (collect now s))

-- Each waiter is told what its realm may have.
pub tell : ℕ → Text → List Waiter → Store → Store × List Answer
unfolding get
tell now id [] s = (s, [])
tell now id (w ∷ ws) s =
    let (t, body) = get now w.physical id s in
    let (u, answers) = tell now id ws t in
    (u, record { number = w.number; physical = w.physical; id = id; body = body } ∷ answers)

pub settle : ℕ → Text → Store → Store × List Answer
unfolding tell lookup remove
settle now id s = elim (lookup id s.waiters) [
  | none ↦ (s, [])
  | some list ↦ tell now id list (record s { waiters = remove id s.waiters })
]

abbrev pub own : Text → List (Text × Item) → List (Text × Item)
own physical m = keep (λ (e : Text × Item). same e.1.physical physical) m

abbrev pub size : Item → ℕ
size item = length item.body

abbrev pub waiting : List (Text × List Waiter) → ℕ
waiting m = total (λ (ws : List Waiter). length ws) m

abbrev pub or_empty : Option (List Waiter) → List Waiter
or_empty none = []
or_empty (some ws) = ws

abbrev pub list_of : Text → List (Text × List Waiter) → List Waiter
list_of id m = or_empty (lookup id m)

module _ (o : Options) (is_client_id : Text → Bool) where
  pub within : Text → Text → Store → Bool
  unfolding same
  within physical body s =
      let mine = own physical s.entries in
      leb (total size mine + length body) o.max_bytes
      && ltb (length mine) o.max_entries
      && leb (s.bytes + length body) o.max_total_bytes
      && ltb (length s.entries) o.max_total_entries

  pub add : ℕ → Text → Text → Text → Store → Store × List Answer
  unfolding put settle
  add now physical body id s = settle now id (record s {
    entries = put id (record { physical = physical; body = body; expires = now + o.ttl }) s.entries;
    bytes = s.bytes + length body;
  })

  abbrev pub bad_client_id : Option Text → Store → Bool
  bad_client_id none s = false
  bad_client_id (some id) s = not (is_client_id id) || has id s.entries || has id s.failed

  abbrev pub id_or : Option Text → Text → Text
  id_or none fresh = fresh
  id_or (some id) fresh = id

  -- `put`: the store, what is told, and the identifier, or an exception.
  pub put_source :
      ℕ
      → (fresh : Text) → (physical body : Text) → Option Text
      → Store
      → Store × List Answer × Option Text
  unfolding collect within add lookup
  put_source now fresh physical body client s =
      let t = collect now s in
      let id = id_or client fresh in
      let (u, answers) = add now physical body id t in
      if bad_client_id client t
      then (t, [], none)
      else if within physical body t
      then (u, answers, some id)
      else (t, [], none)

  pub fail : ℕ → Text → Store → Store × List Answer
  unfolding collect settle lookup put
  fail now id s =
      let t = collect now s in
      let noted =
        if ltb (length t.failed) o.max_total_entries
        then record t { failed = put id (now + o.ttl) t.failed }
        else t in
      if not (is_client_id id) || has id s.entries then (s, []) else settle now id noted

  abbrev pub is_known : Text → Option Text → Store → Bool
  is_known id none s = has id s.entries || not (is_client_id id) || has id s.failed
  is_known id (some _) s = true

  -- `wait`: told at once, or put last.
  pub wait : ℕ → Waiter → Text → Store → Store × List Answer
  unfolding get lookup put
  wait now w id s =
      let (t, ready) = get now w.physical id s in
      if is_known id ready t
      then (t, record { number = w.number; physical = w.physical; id = id; body = ready } ∷ [])
      else if leb o.max_total_entries (waiting t.waiters)
      then (t, record { number = w.number; physical = w.physical; id = id; body = none } ∷ [])
      else (record t { waiters = put id (list_of id t.waiters ++ w ∷ []) t.waiters }, [])

-- The first with a number goes.
pub drop_waiter : ℕ → List Waiter → List Waiter
drop_waiter n [] = []
drop_waiter n (w ∷ ws) = let rest = drop_waiter n ws in if w.number == n then ws else w ∷ rest

-- A list that is empty goes.
pub with_list : Text → List Waiter → List (Text × List Waiter) → List (Text × List Waiter)
unfolding put remove
with_list id [] m = remove id m
with_list id (w ∷ ws) m = put id (w ∷ ws) m

-- The time of a waiter is over: it is told nothing. The timer of one that has been told does not fire.
pub time_out : Waiter → Text → Store → Store × List Answer
unfolding drop_waiter lookup with_list
time_out w id s = elim (lookup id s.waiters) [
  | none ↦ (s, [])
  | some ws ↦
      let less = drop_waiter w.number ws in
      if length less == length ws then (s, []) else (
        record s { waiters = with_list id less s.waiters },
        record { number = w.number; physical = w.physical; id = id; body = none } ∷ [],
      )
]
