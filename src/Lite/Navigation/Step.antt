-- ===== src/Lite/Navigation/Step.antt =====
-- Every operation of the store keeps its accounts, so they hold after every session.
use vibetop.Base.{
  ℕ, ◌≡◌, refl, ◌&&◌, not, Option, none, some, List, [], ◌∷◌, if_elim, Text, same, lookup, put,
  remove, same_option, Bool-cases, inl, inr, ◌==◌,
}
use vibetop.Lite.Url.{Url}
use vibetop.Lite.Navigation.{
  Navigation, Store, Options, is_dispatching, approve_found, approve, dispatch_found, dispatch,
  ticketed, held, complete_found, complete, step, run, Operation, capture_op, approve_op,
  dispatch_op, complete_op, cancel_op, invalidate_op, collect, invalidate_over, invalidate_tab,
  may_approve, approved_record, may_dispatch, dispatching,
}
use vibetop.Lite.Navigation.Account.{
  IsValid, challenge_of_lookup, remove_record-IsValid, update-IsValid, cancel-IsValid,
  collect-IsValid,
}
use vibetop.Lite.Navigation.Room.{capture-IsValid}

approve_found-IsValid :
    {o : Options} (now : ℕ) (ticket tab : Text) (epoch : ℕ) (source : Option Text) (id : Text)
    (found : Option Navigation) {s : Store}
    → lookup id s.pending ≡ found
    → IsValid o s
    → IsValid o (approve_found o now ticket tab epoch source found s).0
unfolding approve_found
approve_found-IsValid now ticket tab epoch source id none e v = v
approve_found-IsValid {o} now ticket tab epoch source id (some r) {s} e v =
    elim (Bool-cases (may_approve tab epoch source r)) [
      | inl fits ↦ rw fits (
          update-IsValid r (approved_record o now ticket r) (put ticket r.challenge s.tickets) v
            (challenge_of_lookup id v e) refl refl refl)
      | inr no_fit ↦ rw no_fit v
    ]

approve-IsValid :
    {o : Options} (now : ℕ) (ticket challenge tab : Text) (epoch : ℕ) (source : Option Text)
    {s : Store}
    → IsValid o s
    → IsValid o (approve o now ticket challenge tab epoch source s).0
unfolding approve
approve-IsValid now ticket challenge tab epoch source v =
    approve_found-IsValid now ticket tab epoch source challenge _ refl (collect-IsValid now v)

dispatch_found-IsValid :
    {o : Options} (ticket tab : Text) (epoch : ℕ) (found : Option Navigation) {s : Store}
    → ((r : Navigation) → found ≡ some r → lookup r.challenge s.pending ≡ some r)
    → IsValid o s
    → IsValid o (dispatch_found ticket tab epoch found s).0
unfolding dispatch_found
dispatch_found-IsValid ticket tab epoch none e v = v
dispatch_found-IsValid ticket tab epoch (some r) {s} e v =
    elim (Bool-cases (may_dispatch tab epoch r)) [
      | inl fits ↦ rw fits (
          update-IsValid r (record r { state = dispatching }) (remove ticket s.tickets) v (e r refl)
            refl refl refl)
      | inr no_fit ↦ rw no_fit v
    ]

challenge_of_held :
    {o : Options} (challenge : Option Text) {s : Store}
    → IsValid o s
    → (r : Navigation) → held challenge s ≡ some r
    → lookup r.challenge s.pending ≡ some r
unfolding held
challenge_of_held none v r h = absurd (cc)
challenge_of_held (some k) v r h = challenge_of_lookup k v h

dispatch-IsValid :
    {o : Options} (now : ℕ) (ticket tab : Text) (epoch : ℕ) {s : Store}
    → IsValid o s
    → IsValid o (dispatch now ticket tab epoch s).0
unfolding dispatch ticketed
dispatch-IsValid now ticket tab epoch {s} v =
    let w = collect-IsValid now v in
    dispatch_found-IsValid ticket tab epoch (ticketed ticket (collect now s))
      (challenge_of_held _ w) w

complete_found-IsValid :
    {o : Options} (found : Option Navigation) (id : Text) {s : Store}
    → lookup id s.pending ≡ found
    → IsValid o s
    → IsValid o (complete_found found s).0
unfolding complete_found
complete_found-IsValid none id e v = v
complete_found-IsValid (some r) id {s} e v = elim (Bool-cases (is_dispatching r.state)) [
  | inl done ↦ rw done (remove_record-IsValid r v (challenge_of_lookup id v e))
  | inr busy ↦ rw busy v
]

invalidate_over-IsValid :
    {o : Options} (tab : Text) (epoch : ℕ) (except : Option Text) (es : List (Text × Navigation))
    {s : Store}
    → IsValid o s
    → IsValid o (invalidate_over tab epoch except es s)
unfolding invalidate_over
invalidate_over-IsValid tab epoch except [] v = v
invalidate_over-IsValid {o} tab epoch except ((id, r) ∷ es) v =
    invalidate_over-IsValid tab epoch except es (
      if_elim (IsValid o)
        (same r.tab_id tab && not (r.epoch == epoch) && not (same_option (some id) except))
        (λ _. cancel-IsValid id v) (λ _. v))

-- The identifiers that captures draw are new: 256 random bits.
abbrev pub IsFresh : Operation → Store → Type 0
IsFresh (capture_op challenge c) s = lookup challenge s.pending ≡ none
IsFresh _ s = Unit

step-IsValid :
    (parse : Text → Option Url) {o : Options} (now : ℕ) (op : Operation) {s : Store}
    → IsFresh op s
    → IsValid o s
    → IsValid o (step parse o now op s)
unfolding step complete invalidate_tab
step-IsValid parse now (capture_op challenge c) fresh v =
    capture-IsValid parse now challenge c fresh v
step-IsValid parse now (approve_op ticket challenge tab epoch source) fresh v =
    approve-IsValid now ticket challenge tab epoch source v
step-IsValid parse now (dispatch_op ticket tab epoch) fresh v =
    dispatch-IsValid now ticket tab epoch v
step-IsValid parse now (complete_op id) fresh v = complete_found-IsValid _ id refl v
step-IsValid parse now (cancel_op id) fresh v = cancel-IsValid id v
step-IsValid parse now (invalidate_op tab epoch except) {s} fresh v =
    invalidate_over-IsValid tab epoch except s.pending v

-- Along a session, each capture draws an identifier that is not in use.
unfoldable pub AllFresh : (Text → Option Url) → Options → List (ℕ × Operation) → Store → Type 0
AllFresh parse o [] s = Unit
AllFresh parse o ((now, op) ∷ ops) s = IsFresh op s × AllFresh parse o ops (step parse o now op s)

-- From a store in order, any session with fresh identifiers leads to one in order: the byte count is
-- the sum of the bodies, no challenge occurs twice, and the limits on the number and the size of the
-- navigations hold, in all and for each tab.
pub run-IsValid :
    (parse : Text → Option Url) (o : Options) (ops : List (ℕ × Operation)) {s : Store}
    → AllFresh parse o ops s
    → IsValid o s
    → IsValid o (run parse o ops s)
unfolding run AllFresh
run-IsValid parse o [] fresh v = v
run-IsValid parse o ((now, op) ∷ ops) fresh v =
    run-IsValid parse o ops fresh.1 (step-IsValid parse now op fresh.0 v)
