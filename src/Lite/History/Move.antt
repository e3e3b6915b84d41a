-- ===== src/Lite/History/Move.antt =====
-- The operations of the journal: mutations, requests to move, moves, and the listeners of the page.
pub mod Valid
mod Tests
use vibetop.Base.{
  ℕ, zero, suc, ◌+◌, Bool, true, false, ◌&&◌, not, Option, none, some, List, [], ◌∷◌, ◌++◌,
  if◌then◌else◌, ◌==◌, map, length, get_elem?, Text, same, same_option, ℤ,
}
use vibetop.Lite.History.{
  Page, Entry, Frame, Kind, push, replace, sync, traversed, Action, changed, navigate, threw,
  popstate, hashchange, request_frame, reported, Journal, adjust, physical_at, id_at, save_scroll,
  append_entry, announce, find_index, set_depth, is_auto,
}

-- What happens: calls of the journal, and what the browser and the page do.
pub data Event : Type 0 where
  mutated : (pushes : Bool) → (accepted : Option (Text × Text)) → Event
  requested : ℤ → Event
  depth_set : ℕ → Event
  snapshot_taken : Event
  traverse_to : (basis target : Text) → Event
  clicked acted hash_changed : Event
  scrolled : (x y : ℕ) → Event
  moved_by_page : (physical state : Text) → Event
  frame : Frame → Event

module _ (original_url origin hash : Text → Text) (uuid : ℕ → Text) where
  abbrev pub read : Text → Page → Entry
  read id p = record { id = id; url = original_url p.physical; page = p }

  pub push_entry : Journal → Journal
  unfolding append_entry
  push_entry s = append_entry (read (uuid s.made) s.page) (record s { made = s.made + 1 })

  pub reconcile : Journal → Journal × List Action
  unfolding physical_at push_entry announce
  reconcile s =
      if same_option (some s.page.physical) (physical_at (get_elem? s.entries s.index))
      then (s, [])
      else announce push (push_entry s)

  -- `mutation`, after the browser has taken the address and the state, or has thrown.
  pub commit : Bool → Option (Text × Text) → Journal → Journal × List Action
  unfolding push_entry announce adjust
  commit pushes none s = (s, threw ∷ [])
  commit true (some (physical, state)) s =
      announce push
        (push_entry (record s { page = record s.page { physical = physical; state = state } }))
  commit false (some (physical, state)) s =
      let p : Page = record s.page { physical = physical; state = state } in
      announce replace
        (record s { page = p; entries = adjust s.index (λ e. read e.id p) s.entries })

  pub mutation : Bool → Option (Text × Text) → Journal → Journal × List Action
  unfolding reconcile save_scroll commit
  mutation pushes accepted s =
      let (t, first) = reconcile s in
      let saved = save_scroll t in
      let (u, more) = commit pushes accepted (record saved { generation = saved.generation + 1 }) in
      (u, first ++ more)

  pub request : ℤ → Journal → Journal × List Action
  unfolding reconcile
  request delta s = let (t, first) = reconcile s in (t, first ++ navigate delta ∷ [])

  pub snapshot : Journal → Journal × List Action
  unfolding reconcile
  snapshot s =
      let (t, first) = reconcile s in
      (t, first ++ reported t.sequence t.index (map (λ (e : Entry). (e.id, e.url)) t.entries) ∷ [])

  -- The move itself, to the entry `target` at the place `next`.
  pub replay : ℕ → Option Entry → Option Entry → Journal → Journal × List Action
  unfolding announce
  replay next (some old) (some target) s =
      let shown : Page = record s.page {
        physical = target.page.physical;
        state = target.page.state;
        restoration = target.page.restoration;
      } in
      let (t, first) = announce traversed (record s { page = shown; index = next }) in
      let remembered : Frame = record {
        generation = s.generation;
        target = target.id;
        before_x = s.page.x;
        before_y = s.page.y;
        desired_x = target.page.x;
        desired_y = target.page.y;
      } in
      if not (same (origin target.page.physical) (origin s.page.physical))
      then (s, threw ∷ [])
      else (
        t,
        first
            ++ popstate target.page.state
              ∷ (if same (hash old.url) (hash target.url)
                  then []
                  else hashchange old.url target.url ∷ [])
            ++ (if is_auto target.page.restoration then request_frame remembered ∷ [] else []),
      )
  replay next none target s = (s, [])
  replay next (some old) none s = (s, [])

  pub move : Option ℕ → Journal → Journal × List Action
  unfolding announce save_scroll replay
  move none s = announce sync s
  move (some next) s =
      let saved = save_scroll s in
      let t : Journal = record saved { generation = saved.generation + 1 } in
      if next == s.index
      then announce sync s
      else replay next (get_elem? t.entries t.index) (get_elem? t.entries next) t

  pub traverse : Text → Text → Journal → Journal × List Action
  unfolding reconcile announce move find_index id_at
  traverse basis target s =
      let (t, first) = reconcile s in
      let (u, more) =
        if same_option (id_at (get_elem? t.entries t.index)) (some basis)
        then move (find_index target t.entries) t
        else announce sync t in
      (u, first ++ more)

  -- The callback of an animation frame. Entries are told apart by their identifiers: an entry that is
  -- replaced keeps its own, but a replacement raises the generation.
  pub on_frame : Frame → Journal → Journal
  unfolding id_at
  on_frame f s =
      if f.generation == s.generation
        && same_option (id_at (get_elem? s.entries s.index)) (some f.target)
        && is_auto s.page.restoration
        && s.page.x == f.before_x
        && s.page.y == f.before_y
      then record s { page = record s.page { x = f.desired_x; y = f.desired_y } }
      else s

  pub on_scroll : ℕ → ℕ → Journal → Journal
  unfolding save_scroll physical_at
  on_scroll x y s =
      let t : Journal = record s { page = record s.page { x = x; y = y } } in
      if same_option (some t.page.physical) (physical_at (get_elem? t.entries t.index))
      then save_scroll t
      else t

  pub step : Event → Journal → Journal × List Action
  unfolding mutation request snapshot traverse on_frame on_scroll set_depth save_scroll reconcile
  step (mutated pushes accepted) s = mutation pushes accepted s
  step (requested delta) s = request delta s
  step (depth_set depth) s = (set_depth depth s, [])
  step snapshot_taken s = snapshot s
  step (traverse_to basis target) s = traverse basis target s
  step clicked s = (save_scroll s, [])
  step acted s = (record s { generation = s.generation + 1 }, [])
  step hash_changed s = reconcile s
  step (scrolled x y) s = (on_scroll x y s, [])
  step (moved_by_page physical state) s =
      (record s { page = record s.page { physical = physical; state = state } }, [])
  step (frame f) s = (on_frame f s, [])

  pub run : List Event → Journal → Journal × List Action
  unfolding step
  run [] s = (s, [])
  run (e ∷ es) s = let (t, actions) = step e s in let (u, more) = run es t in (u, actions ++ more)

  -- The journal of a page that is installed, whose document has the first identifier.
  pub install : Page → Journal
  install p = record {
    page = p;
    entries = read (uuid 1) p ∷ [];
    index = 0;
    sequence = 0;
    generation = 0;
    extra_depth = 0;
    made = 2;
  }
