-- ===== src/Term/KbdInput/Tests.antt =====
-- Sessions of the forwarder, and its theorems at concrete inputs.
use vibetop.Base.{ℕ, ◌≡◌, refl, true, false, List, [], ◌∷◌}
use vibetop.Term.KbdInput.{created, Event, input, composition_start, fire, step, run}
use vibetop.Term.KbdInput.Line.{Shell}

-- "abc", then "ab", then "abX": one DEL for the removed character, and the new tail.
typed_and_edited :
    (run 6000 created (
      input (97 ∷ 98 ∷ 99 ∷ []) false
      ∷ input (97 ∷ 98 ∷ []) false
      ∷ input (97 ∷ 98 ∷ 88 ∷ []) false
      ∷ [])).1
    ≡ 97 ∷ 98 ∷ 99 ∷ 127 ∷ 88 ∷ []
unfolding run step
typed_and_edited = refl

-- Dictation that stalls is flushed by the safety timer.
dictation_flushed :
    (run 500 created (composition_start ∷ input (104 ∷ 105 ∷ []) true ∷ fire ∷ [])).1
    ≡ 104 ∷ 105 ∷ []
unfolding run step
dictation_flushed = refl

abbrev fresh : Shell
fresh = record { line = []; entered = [] }

abbrev typed_ls : List Event
typed_ls = input (108 ∷ []) false ∷ input (108 ∷ 115 ∷ []) false ∷ []

abbrev pinyin : List (List ℕ)
pinyin = (115 ∷ []) ∷ (115 ∷ 104 ∷ []) ∷ []
