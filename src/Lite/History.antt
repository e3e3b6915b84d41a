-- ===== src/Lite/History.antt =====
-- apps/everyday/browser-lite/proxy/document-history.js, the journal that stands in for the history of a page
-- (`vibetopInstallHistory`). The page's address, state and scroll position are a record that the page and the browser
-- change by events. What a listener does during a `popstate` is the events after it. The parser of addresses, the map
-- back to the site's address and the supply of identifiers are arguments.
pub mod Move
pub mod Place
use vibetop.Base.{
  ℕ, zero, suc, ◌+◌, ◌-◌, Bool, true, false, ◌&&◌, not, Option, none, some, List, [], ◌∷◌, ◌++◌,
  if◌then◌else◌, ◌==◌, ltb, leb, length, take, drop, get_elem?, map, Text, same, same_option, ℤ,
}

pub data Restoration : Type 0 where
  auto manual : Restoration

pub data Kind : Type 0 where
  push replace sync traversed : Kind

pub record Page : Type 0 where
  pub physical : Text
  pub state : Text
  pub x : ℕ
  pub y : ℕ
  pub restoration : Restoration

pub record Entry : Type 0 where
  pub id : Text
  pub url : Text
  pub page : Page

-- What the callback of an animation frame remembers.
pub record Frame : Type 0 where
  pub generation : ℕ
  pub target : Text
  pub before_x : ℕ
  pub before_y : ℕ
  pub desired_x : ℕ
  pub desired_y : ℕ

pub data Action : Type 0 where
  changed : Kind → Action
  navigate : ℤ → Action
  threw : Action
  popstate : Text → Action
  hashchange : Text → Text → Action
  request_frame : Frame → Action
  reported : (sequence : ℕ) → (index : ℕ) → List (Text × Text) → Action

pub record Journal : Type 0 where
  pub page : Page
  pub entries : List Entry
  pub index : ℕ
  pub sequence : ℕ
  pub generation : ℕ
  pub extra_depth : ℕ
  pub made : ℕ

abbrev pub max_entries : ℕ
max_entries = 50

-- `entries[index] = change(entries[index])`
pub adjust : ℕ → (Entry → Entry) → List Entry → List Entry
adjust _ change [] = []
adjust zero change (e ∷ es) = change e ∷ es
adjust (suc i) change (e ∷ es) = e ∷ adjust i change es

pub physical_at : Option Entry → Option Text
physical_at none = none
physical_at (some e) = some e.page.physical

pub id_at : Option Entry → Option Text
id_at none = none
id_at (some e) = some e.id

-- `saveScroll`
abbrev pub with_scroll : Page → Entry → Entry
with_scroll p e = record e {
  page = record e.page { x = p.x; y = p.y; restoration = p.restoration };
}

pub save_scroll : Journal → Journal
unfolding adjust
save_scroll s = record s { entries = adjust s.index (with_scroll s.page) s.entries }

-- A new entry after the current one, in place of those that follow; the oldest leaves when there are too many.
pub append_entry : Entry → Journal → Journal
append_entry e s =
    let longer = take (s.index + 1) s.entries ++ e ∷ [] in
    if ltb max_entries (length longer)
    then record s { entries = drop 1 longer; index = length longer - 1 - 1 }
    else record s { entries = longer; index = length longer - 1 }

pub announce : Kind → Journal → Journal × List Action
announce kind s = (record s { sequence = s.sequence + 1 }, changed kind ∷ [])

-- `entries.findIndex(entry => entry.id === id)`
pub find_index : Text → List Entry → Option ℕ
find_index id [] = none
find_index id (e ∷ es) = let later = find_index id es in if same e.id id then some 0 else next later
  where
    next : Option ℕ → Option ℕ
    next none = none
    next (some i) = some (suc i)

-- `setDepth`
pub set_depth : ℕ → Journal → Journal
set_depth depth s = if leb depth 10000 then record s { extra_depth = depth } else s

-- `history.length`
history_length : Journal → ℕ
history_length s = s.extra_depth + length s.entries

abbrev pub is_auto : Restoration → Bool
is_auto auto = true
is_auto manual = false
