-- ===== src/Term/TabSync/Tests.antt =====
-- Runs of the tab reconciliation, and its theorems at concrete inputs.
use vibetop.Base.{◌≡◌, refl, ◌||◌, ◌&&◌, not, [], ◌∷◌, mem}
use vibetop.Term.TabSync.{reconcile}
use vibetop.Term.TabSync.Laws.{mem-desired}

-- A tab that was opened here survives a poll that does not list it.
opened_survives : (reconcile (1 ∷ []) (4 ∷ []) []).desired ≡ 1 ∷ 4 ∷ []
unfolding reconcile
opened_survives = refl

-- A tab that was closed here stays hidden while the server still lists it.
closed_stays_hidden : (reconcile (2 ∷ 1 ∷ []) [] (2 ∷ [])).desired ≡ 1 ∷ []
unfolding reconcile
closed_stays_hidden = refl

mem-desired_example :
    mem 4 (reconcile (1 ∷ 2 ∷ []) (4 ∷ []) (2 ∷ [])).desired
    ≡ ((mem 4 (1 ∷ 2 ∷ []) || mem 4 (4 ∷ [])) && not (mem 4 (2 ∷ [])))
mem-desired_example = mem-desired 4 (1 ∷ 2 ∷ []) (4 ∷ []) (2 ∷ [])
