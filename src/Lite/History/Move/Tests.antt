-- ===== src/Lite/History/Move/Tests.antt =====
-- The journal over a concrete session, and the theorems there.
use vibetop.Base.{ℕ, ◌≡◌, refl, true, none, some, List, [], ◌∷◌, Text, arith, same_option, same}
use vibetop.Lite.History.{
  Page, auto, changed, push, traversed, popstate, hashchange, request_frame, Journal,
}
use vibetop.Lite.History.Place.{IsJournal, Synced}
use vibetop.Lite.History.Move.{
  Event, mutated, traverse_to, scrolled, moved_by_page, step, run, install,
}
use vibetop.Lite.History.Move.Valid.{run-IsJournal, step-Synced}

abbrev as_is : Text → Text
as_is address = address

abbrev same_site : Text → Text
same_site address = []

-- The identifiers of the tests.
abbrev numbered : ℕ → Text
numbered n = n ∷ []

abbrev opened_page : Page
opened_page = record { physical = 7 ∷ []; state = []; x = 0; y = 0; restoration = auto }

abbrev opened_journal : Journal
opened_journal = install as_is same_site as_is numbered opened_page

-- A state is pushed far down the page; then the page goes back, and remembers to scroll down again.
abbrev session : List Event
session =
    scrolled 0 90
    ∷ mutated true (some (8 ∷ [], 5 ∷ []))
    ∷ traverse_to (numbered 2) (numbered 1)
    ∷ []

back_again :
    (run as_is same_site as_is numbered session opened_journal).1
    ≡ changed push
      ∷ changed traversed
      ∷ popstate []
      ∷ hashchange (8 ∷ []) (7 ∷ [])
      ∷ request_frame (record {
        generation = 2;
        target = numbered 1;
        before_x = 0;
        before_y = 90;
        desired_x = 0;
        desired_y = 90;
      })
      ∷ []
unfolding run same_option install same
back_again = refl

run-IsJournal_example : IsJournal (run as_is same_site as_is numbered session opened_journal).0
unfolding install
run-IsJournal_example =
    run-IsJournal as_is same_site as_is numbered session opened_journal
      (record { here = omega arith; bounded = omega arith })

-- The page has moved by a fragment before.
abbrev strayed : Journal
strayed = (run as_is same_site as_is numbered (moved_by_page (9 ∷ []) [] ∷ []) opened_journal).0

step-Synced_example : Synced (step as_is same_site as_is numbered (mutated true none) strayed).0
unfolding run install
step-Synced_example =
    step-Synced as_is same_site as_is numbered (mutated true none) strayed tt
      (record { here = omega arith; bounded = omega arith })
