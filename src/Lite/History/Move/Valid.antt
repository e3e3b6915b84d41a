-- ===== src/Lite/History/Move/Valid.antt =====
-- The bounds of the journal, and its agreement with the address of the page.
use vibetop.Base.{
  ℕ, zero, suc, ◌+◌, ◌<◌, ◌≡◌, refl, Bool, true, false, ◌&&◌, not, Option, none, some, List, [],
  ◌∷◌, if_elim, ◌==◌, leb, arith, length, get_elem?, Text, same, same_option, eq_of_same_option,
}
use vibetop.Lite.History.{
  Page, Entry, Frame, Journal, Action, physical_at, id_at, save_scroll, announce, find_index,
  set_depth, is_auto,
}
use vibetop.Lite.History.Place.{
  IsJournal, Synced, get_elem?-adjust, length-adjust, append_entry-Syncs, save_scroll-IsJournal,
  save_scroll-Synced, current_page,
}
use vibetop.Lite.History.Move.{
  Event, mutated, requested, depth_set, snapshot_taken, traverse_to, clicked, acted, hash_changed,
  scrolled, moved_by_page, frame, read, push_entry, reconcile, commit, mutation, request, snapshot,
  replay, move, traverse, on_frame, on_scroll, step, run,
}

-- An operation leads to a journal that agrees with the page.
abbrev Syncs : Journal × List Action → Type 0
Syncs r = IsJournal r.0 × Synced r.0

module _ (original_url origin hash : Text → Text) (uuid : ℕ → Text) where
  push_entry-Syncs :
      (s : Journal)
      → IsJournal s
      → IsJournal (push_entry original_url origin hash uuid s)
        × Synced (push_entry original_url origin hash uuid s)
  unfolding push_entry
  push_entry-Syncs s j =
      append_entry-Syncs
        (record { id = uuid s.made; url = original_url s.page.physical; page = s.page })
        (record s { made = s.made + 1 }) (record { here = j.here; bounded = j.bounded }) refl

  reconcile-Syncs : (s : Journal) → IsJournal s → Syncs (reconcile original_url origin hash uuid s)
  unfolding reconcile announce
  reconcile-Syncs s j =
      if_elim Syncs (same_option (some s.page.physical) (physical_at (get_elem? s.entries s.index)))
        (λ same_page. (j, eq_of_same_option _ _ same_page))
        (λ moved.
          let (k, h) = push_entry-Syncs s j in (record { here = k.here; bounded = k.bounded }, h))

  commit-Syncs :
      (pushes : Bool) (accepted : Option (Text × Text)) (s : Journal)
      → IsJournal s
      → Synced s
      → Syncs (commit original_url origin hash uuid pushes accepted s)
  unfolding commit announce
  commit-Syncs pushes none s j h = (j, h)
  commit-Syncs true (some (physical, state)) s j h =
      let (k, h') =
        push_entry-Syncs (record s { page = record s.page { physical = physical; state = state } })
          (record { here = j.here; bounded = j.bounded }) in
      (record { here = k.here; bounded = k.bounded }, h')
  commit-Syncs false (some (physical, state)) s j h =
      let p : Page = record s.page { physical = physical; state = state } in
      let change : Entry → Entry = λ e. read original_url origin hash uuid e.id p in
      let size = length-adjust s.index change s.entries in
      (
        record { here = omega (arith, size, j.here); bounded = omega (arith, size, j.bounded) },
        get_elem?-adjust s.index change s.entries physical j.here (λ e. refl),
      )

  mutation-Syncs :
      (pushes : Bool) (accepted : Option (Text × Text)) (s : Journal)
      → IsJournal s
      → Syncs (mutation original_url origin hash uuid pushes accepted s)
  unfolding mutation
  mutation-Syncs pushes accepted s j =
      let (k, h) = reconcile-Syncs s j in
      let t = (reconcile original_url origin hash uuid s).0 in
      let kept = save_scroll-IsJournal t k in
      commit-Syncs pushes accepted
        (record (save_scroll t) { generation = (save_scroll t).generation + 1 })
        (record { here = kept.here; bounded = kept.bounded }) (save_scroll-Synced t h)

  replay-Syncs :
      (next : ℕ) (old target : Option Entry) (s : Journal)
      → IsJournal s
      → Synced s
      → get_elem? s.entries next ≡ target
      → Syncs (replay original_url origin hash uuid next old target s)
  unfolding replay announce
  replay-Syncs next none target s j h found = (j, h)
  replay-Syncs next (some old) none s j h found = (j, h)
  replay-Syncs next (some old) (some target) s j h found =
      if_elim Syncs (not (same (origin target.page.physical) (origin s.page.physical)))
        (λ elsewhere. (j, h))
        (λ here. (
          record { here = inside s.entries next target found; bounded = j.bounded },
          current_page (get_elem? s.entries next) target target.page.physical refl found,
        ))
    where
      inside : (es : List Entry) (i : ℕ) (e : Entry) → get_elem? es i ≡ some e → i < length es
      inside [] i e h = ground arith
      inside (_ ∷ es) zero e h = omega arith
      inside (_ ∷ es) (suc i) e h = omega (arith, inside es i e h)

  move-Syncs :
      (next : Option ℕ) (s : Journal)
      → IsJournal s
      → Synced s
      → Syncs (move original_url origin hash uuid next s)
  unfolding move announce
  move-Syncs none s j h = (record { here = j.here; bounded = j.bounded }, h)
  move-Syncs (some next) s j h =
      let kept = save_scroll-IsJournal s j in
      let t : Journal = record (save_scroll s) { generation = (save_scroll s).generation + 1 } in
      if_elim Syncs (next == s.index) (λ here. (record { here = j.here; bounded = j.bounded }, h))
        (λ away.
          replay-Syncs next (get_elem? t.entries t.index) (get_elem? t.entries next) t
            (record { here = kept.here; bounded = kept.bounded }) (save_scroll-Synced s h) refl)

  traverse-Syncs :
      (basis target : Text) (s : Journal)
      → IsJournal s
      → Syncs (traverse original_url origin hash uuid basis target s)
  unfolding traverse announce
  traverse-Syncs basis target s j =
      let (k, h) = reconcile-Syncs s j in
      let t = (reconcile original_url origin hash uuid s).0 in
      if_elim Syncs (same_option (id_at (get_elem? t.entries t.index)) (some basis))
        (λ mine. move-Syncs (find_index target t.entries) t k h)
        (λ other. (record { here = k.here; bounded = k.bounded }, h))

  on_scroll-IsJournal :
      (x y : ℕ) (s : Journal)
      → IsJournal s
      → IsJournal (on_scroll original_url origin hash uuid x y s)
  unfolding on_scroll
  on_scroll-IsJournal x y s j =
      let t : Journal = record s { page = record s.page { x = x; y = y } } in
      let k : IsJournal t = record { here = j.here; bounded = j.bounded } in
      if_elim IsJournal
        (same_option (some t.page.physical) (physical_at (get_elem? t.entries t.index)))
        (λ here. save_scroll-IsJournal t k) (λ away. k)

  on_frame-IsJournal :
      (f : Frame) (s : Journal)
      → IsJournal s
      → IsJournal (on_frame original_url origin hash uuid f s)
  unfolding on_frame
  on_frame-IsJournal f s j =
      let current = same_option (id_at (get_elem? s.entries s.index)) (some f.target) in
      if_elim IsJournal
        (f.generation == s.generation
          && current
          && is_auto s.page.restoration
          && s.page.x == f.before_x
          && s.page.y == f.before_y)
        (λ back. record { here = j.here; bounded = j.bounded }) (λ no. j)

  set_depth-IsJournal : (depth : ℕ) (s : Journal) → IsJournal s → IsJournal (set_depth depth s)
  unfolding set_depth
  set_depth-IsJournal depth s j =
      if_elim IsJournal (leb depth 10000) (λ small. record { here = j.here; bounded = j.bounded })
        (λ large. j)

  step-IsJournal :
      (e : Event) (s : Journal) → IsJournal s → IsJournal (step original_url origin hash uuid e s).0
  unfolding step request snapshot
  step-IsJournal (mutated pushes accepted) s j = (mutation-Syncs pushes accepted s j).0
  step-IsJournal (requested delta) s j = (reconcile-Syncs s j).0
  step-IsJournal (depth_set depth) s j = set_depth-IsJournal depth s j
  step-IsJournal snapshot_taken s j = (reconcile-Syncs s j).0
  step-IsJournal (traverse_to basis target) s j = (traverse-Syncs basis target s j).0
  step-IsJournal clicked s j = save_scroll-IsJournal s j
  step-IsJournal acted s j = record { here = j.here; bounded = j.bounded }
  step-IsJournal hash_changed s j = (reconcile-Syncs s j).0
  step-IsJournal (scrolled x y) s j = on_scroll-IsJournal x y s j
  step-IsJournal (moved_by_page physical state) s j = record { here = j.here; bounded = j.bounded }
  step-IsJournal (frame f) s j = on_frame-IsJournal f s j

  -- Whatever happens to a page, in any order, the journal keeps a current entry among at least one
  -- and at most fifty.
  pub run-IsJournal :
      (es : List Event) (s : Journal)
      → IsJournal s
      → IsJournal (run original_url origin hash uuid es s).0
  unfolding run
  run-IsJournal [] s j = j
  run-IsJournal (e ∷ es) s j =
      run-IsJournal es (step original_url origin hash uuid e s).0 (step-IsJournal e s j)

  -- A call of the history, and the news of a changed fragment.
  abbrev pub IsCall : Event → Type 0
  IsCall (mutated pushes accepted) = Unit
  IsCall (requested delta) = Unit
  IsCall snapshot_taken = Unit
  IsCall (traverse_to basis target) = Unit
  IsCall hash_changed = Unit
  IsCall _ = ⊥

  -- After each call of the history, also one that the browser refuses, and wherever the page has
  -- moved by itself before, the current entry is the one with the address of the page.
  pub step-Synced :
      (e : Event) (s : Journal)
      → IsCall e
      → IsJournal s
      → Synced (step original_url origin hash uuid e s).0
  unfolding step request snapshot
  step-Synced (mutated pushes accepted) s c j = (mutation-Syncs pushes accepted s j).1
  step-Synced (requested delta) s c j = (reconcile-Syncs s j).1
  step-Synced snapshot_taken s c j = (reconcile-Syncs s j).1
  step-Synced (traverse_to basis target) s c j = (traverse-Syncs basis target s j).1
  step-Synced hash_changed s c j = (reconcile-Syncs s j).1
  step-Synced (depth_set depth) s c j = absurd c
  step-Synced clicked s c j = absurd c
  step-Synced acted s c j = absurd c
  step-Synced (scrolled x y) s c j = absurd c
  step-Synced (moved_by_page physical state) s c j = absurd c
  step-Synced (frame f) s c j = absurd c
