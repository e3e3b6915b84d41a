-- ===== src/Lite/Navigation/Tests.antt =====
-- Runs of the store of navigations, and its theorems at concrete inputs.
use vibetop.Base.{
  ℕ, ◌≡◌, refl, false, none, some, Option, List, [], ◌∷◌, arith, Text, lookup, put, same,
  same_option, remove, codes,
}
use vibetop.Lite.Url.{Url}
use vibetop.Lite.Navigation.{
  Options, Capture, Operation, ok, err, stale, unexpected_body, too_many_in_tab, get, post,
  approved_record, Navigation, captured, same_origin, capture_op, approve_op, complete_op,
  invalidate_op, capture, approve, dispatch, complete, run, empty, owned_count, owned_bytes,
}
use vibetop.Lite.Navigation.Account.{IsValid}
use vibetop.Lite.Navigation.Step.{AllFresh, run-IsValid}
use vibetop.Lite.Navigation.Tickets.{AllDrawOther, dispatch-dispatch}

-- A parser that takes every text for a secure address of the origin `o`.
abbrev parse : Text → Option Url
parse t = some (record {
  href = t;
  origin = 111 ∷ [];
  protocol = codes "https:";
  username = [];
  password = [];
  hostname = 111 ∷ [];
  host = 111 ∷ [];
})

abbrev options : Options
options = record {
  ttl = 30;
  approved_ttl = 120;
  max_pending = 256;
  max_per_tab = 1;
  max_bytes = 64;
  max_bytes_per_tab = 8;
}

abbrev form : Text → Capture
form tab = record {
  url = 117 ∷ [];
  method = post;
  body = 98 ∷ 98 ∷ [];
  content_type = [];
  source_origin = none;
  tab_id = tab;
  epoch = 3;
  initiator_origin = none;
  cross_site_redirect = false;
  redirect_count = 0;
  origin_taint = same_origin;
}

abbrev tab : Text
tab = 116 ∷ []

abbrev challenge : Text
challenge = 99 ∷ []

abbrev ticket : Text
ticket = 120 ∷ []

-- What the capture of `form tab` at time 0 stores.
abbrev admitted : Navigation
admitted = record {
  challenge = challenge;
  url = 117 ∷ [];
  method = post;
  body = 98 ∷ 98 ∷ [];
  content_type = [];
  source_origin = none;
  tab_id = tab;
  epoch = 3;
  initiator_origin = none;
  cross_site_redirect = false;
  redirect_count = 0;
  origin_taint = same_origin;
  expires = 30;
  state = captured;
  ticket = none;
}

abbrev session : List (ℕ × Operation)
session = (0, capture_op challenge (form tab)) ∷ (5, approve_op ticket challenge tab 3 none) ∷ []

-- The second capture of a tab is over the limit of one.
crowded :
    (capture parse options 1
      (100 ∷ [])
      (form tab)
      (capture parse options 0 challenge (form tab) empty).0).1
    ≡ err too_many_in_tab
unfolding capture lookup put remove same same_option
crowded = refl

-- A body on a GET is refused.
bodied :
    (capture parse options 1 challenge (record (form tab) { method = get }) empty).1
    ≡ err unexpected_body
unfolding capture lookup put remove same same_option
bodied = refl

-- A capture expires when its time has come, and its bytes are given back.
expired :
    (capture parse options 30
      (100 ∷ [])
      (form tab)
      (capture parse options 0 challenge (form tab) empty).0).0.bytes
    ≡ 2
unfolding capture lookup put remove same same_option
expired = refl

-- An approval for another epoch is refused.
outdated :
    (approve options 5 ticket challenge tab 4 none
      (capture parse options 0 challenge (form tab) empty).0).1
    ≡ err stale
unfolding capture approve lookup put remove same same_option
outdated = refl

-- The whole way: capture, approval, dispatch and completion leave nothing.
completed :
    let s = run parse options session empty in
    complete challenge (dispatch 6 ticket tab 3 s).0 ≡ (empty, ok tt)
unfolding run dispatch complete lookup put remove same same_option
completed = refl

empty-IsValid : IsValid options empty
unfolding owned_count owned_bytes
empty-IsValid = record {
  counted = refl;
  distinct = tt;
  named = tt;
  few = omega arith;
  light = omega arith;
  fair = λ tab. omega arith;
  fair_bytes = λ tab. omega arith;
}

run-IsValid_example : IsValid options (run parse options session empty)
run-IsValid_example =
    run-IsValid parse options session (unfold AllFresh lookup in (refl, (tt, tt))) empty-IsValid

dispatch-dispatch_example :
    (dispatch 9 ticket tab 3 (
      run parse options
        ((7, invalidate_op tab 4 none) ∷ (8, complete_op challenge) ∷ [])
        (dispatch 6 ticket tab 3 (run parse options session empty)).0)).1
    ≡ err stale
dispatch-dispatch_example =
    let won : (dispatch 6 ticket tab 3 (run parse options session empty)).1
        ≡ ok (approved_record options 5 ticket admitted) =
      unfold dispatch run lookup put remove same same_option in refl in
    dispatch-dispatch parse options 6 ticket tab 3 (run parse options session empty)
      ((7, invalidate_op tab 4 none) ∷ (8, complete_op challenge) ∷ []) 9 tab 3 won
      (unfold AllDrawOther in (tt, (tt, tt)))
