-- ===== src/Lite/Navigation/Tickets.antt =====
-- Tickets of the store of navigations: each is spent by the dispatch that it allows.
use vibetop.Base.{
  ℕ, ◌≡◌, refl, ◌∙◌, Bool, false, ◌&&◌, not, Option, none, some, List, [], ◌∷◌, if_elim, Text, same,
  lookup, same_option, Bool-cases, inl, inr, leb, ◌==◌, lookup-remove-none, lookup-put-none,
  lookup-remove, same_refl,
}
use vibetop.Lite.Url.{Url}
use vibetop.Lite.Navigation.{
  Navigation, Store, Options, Result, ok, err, stale, is_dispatching, insert_record, capture,
  approve_found, approve, dispatch_found, dispatch, ticketed, held, complete_found, complete,
  cancel, cancel_found, remove_record, drop_ticket, collect, collect_over, invalidate_over,
  invalidate_tab, may_approve, may_dispatch, step, run, Operation, capture_op, approve_op,
  dispatch_op, complete_op, cancel_op, invalidate_op,
}

-- No record is held under the ticket.
abbrev IsSpent : Text → Store → Type 0
IsSpent t s = lookup t s.tickets ≡ none

drop_ticket-none :
    (t : Text) (drawn : Option Text) (ts : List (Text × Text))
    → lookup t ts ≡ none
    → lookup t (drop_ticket drawn ts) ≡ none
unfolding drop_ticket
drop_ticket-none t none ts h = h
drop_ticket-none t (some k) ts h = lookup-remove-none t k ts h

remove_record-IsSpent :
    (t : Text) (r : Navigation) (s : Store) → IsSpent t s → IsSpent t (remove_record r s)
unfolding remove_record
remove_record-IsSpent t r s h = drop_ticket-none t r.ticket s.tickets h

cancel_found-IsSpent :
    (t : Text) (found : Option Navigation) (s : Store)
    → IsSpent t s
    → IsSpent t (cancel_found found s).0
unfolding cancel_found
cancel_found-IsSpent t none s h = h
cancel_found-IsSpent t (some r) s h =
    if_elim (λ (x : Store × Bool). IsSpent t x.0) (is_dispatching r.state) (λ _. h)
      (λ _. remove_record-IsSpent t r s h)

cancel-IsSpent : (t id : Text) (s : Store) → IsSpent t s → IsSpent t (cancel id s).0
unfolding cancel
cancel-IsSpent t id s h = cancel_found-IsSpent t (lookup id s.pending) s h

collect_over-IsSpent :
    (t : Text) (now : ℕ) (es : List (Text × Navigation)) (s : Store)
    → IsSpent t s
    → IsSpent t (collect_over now es s)
unfolding collect_over
collect_over-IsSpent t now [] s h = h
collect_over-IsSpent t now ((id, r) ∷ es) s h = collect_over-IsSpent t now es _ (
    if_elim (IsSpent t) (leb r.expires now && not (is_dispatching r.state))
      (λ _. cancel-IsSpent t id s h) (λ _. h))

collect-IsSpent : (t : Text) (now : ℕ) (s : Store) → IsSpent t s → IsSpent t (collect now s)
unfolding collect
collect-IsSpent t now s h = collect_over-IsSpent t now s.pending s h

insert_record-IsSpent :
    (t : Text) (a : Result Navigation) (s : Store) → IsSpent t s → IsSpent t (insert_record a s).0
unfolding insert_record
insert_record-IsSpent t (err e) s h = h
insert_record-IsSpent t (ok r) s h = h

approve_found-IsSpent :
    (t : Text) (o : Options) (now : ℕ) (ticket tab : Text) (epoch : ℕ) (source : Option Text)
    (found : Option Navigation) (s : Store)
    → same ticket t ≡ false
    → IsSpent t s
    → IsSpent t (approve_found o now ticket tab epoch source found s).0
unfolding approve_found
approve_found-IsSpent t o now ticket tab epoch source none s other h = h
approve_found-IsSpent t o now ticket tab epoch source (some r) s other h =
    if_elim (λ (x : Store × Result Text). IsSpent t x.0) (may_approve tab epoch source r)
      (λ _. lookup-put-none t ticket r.challenge s.tickets h other) (λ _. h)

dispatch_found-IsSpent :
    (t ticket tab : Text) (epoch : ℕ) (found : Option Navigation) (s : Store)
    → IsSpent t s
    → IsSpent t (dispatch_found ticket tab epoch found s).0
unfolding dispatch_found
dispatch_found-IsSpent t ticket tab epoch none s h = h
dispatch_found-IsSpent t ticket tab epoch (some r) s h =
    if_elim (λ (x : Store × Result Navigation). IsSpent t x.0) (may_dispatch tab epoch r)
      (λ _. lookup-remove-none t ticket s.tickets h) (λ _. h)

complete_found-IsSpent :
    (t : Text) (found : Option Navigation) (s : Store)
    → IsSpent t s
    → IsSpent t (complete_found found s).0
unfolding complete_found
complete_found-IsSpent t none s h = h
complete_found-IsSpent t (some r) s h =
    if_elim (λ (x : Store × Result (Unit {0})). IsSpent t x.0) (is_dispatching r.state)
      (λ _. remove_record-IsSpent t r s h) (λ _. h)

invalidate_over-IsSpent :
    (t tab : Text) (epoch : ℕ) (except : Option Text) (es : List (Text × Navigation)) (s : Store)
    → IsSpent t s
    → IsSpent t (invalidate_over tab epoch except es s)
unfolding invalidate_over
invalidate_over-IsSpent t tab epoch except [] s h = h
invalidate_over-IsSpent t tab epoch except ((id, r) ∷ es) s h =
    invalidate_over-IsSpent t tab epoch except es _ (
      if_elim (IsSpent t)
        (same r.tab_id tab && not (r.epoch == epoch) && not (same_option (some id) except))
        (λ _. cancel-IsSpent t id s h) (λ _. h))

-- The operation does not draw the given ticket.
abbrev pub DrawsOther : Text → Operation → Type 0
DrawsOther t (approve_op ticket challenge tab epoch source) = same ticket t ≡ false
DrawsOther t _ = Unit

step-IsSpent :
    (parse : Text → Option Url) (o : Options) (t : Text) (now : ℕ) (op : Operation) (s : Store)
    → DrawsOther t op
    → IsSpent t s
    → IsSpent t (step parse o now op s)
unfolding step capture approve dispatch complete invalidate_tab
step-IsSpent parse o t now (capture_op challenge c) s d h =
    insert_record-IsSpent t _ _ (collect-IsSpent t now s h)
step-IsSpent parse o t now (approve_op ticket challenge tab epoch source) s d h =
    approve_found-IsSpent t o now ticket tab epoch source _ _ d (collect-IsSpent t now s h)
step-IsSpent parse o t now (dispatch_op ticket tab epoch) s d h =
    dispatch_found-IsSpent t ticket tab epoch _ _ (collect-IsSpent t now s h)
step-IsSpent parse o t now (complete_op id) s d h = complete_found-IsSpent t _ s h
step-IsSpent parse o t now (cancel_op id) s d h = cancel-IsSpent t id s h
step-IsSpent parse o t now (invalidate_op tab epoch except) s d h =
    invalidate_over-IsSpent t tab epoch except s.pending s h

unfoldable pub AllDrawOther : Text → List (ℕ × Operation) → Type 0
AllDrawOther t [] = Unit
AllDrawOther t ((_, op) ∷ ops) = DrawsOther t op × AllDrawOther t ops

run-IsSpent :
    (parse : Text → Option Url) (o : Options) (t : Text) (ops : List (ℕ × Operation)) (s : Store)
    → AllDrawOther t ops
    → IsSpent t s
    → IsSpent t (run parse o ops s)
unfolding run AllDrawOther
run-IsSpent parse o t [] s d h = h
run-IsSpent parse o t ((now, op) ∷ ops) s d h =
    run-IsSpent parse o t ops _ d.1 (step-IsSpent parse o t now op s d.0 h)

-- A dispatch that succeeds spends its ticket.
dispatch_found-spends :
    (ticket tab : Text) (epoch : ℕ) (found : Option Navigation) (s : Store) {r : Navigation}
    → (dispatch_found ticket tab epoch found s).1 ≡ ok r
    → IsSpent ticket (dispatch_found ticket tab epoch found s).0
unfolding dispatch_found
dispatch_found-spends ticket tab epoch none s h = absurd (cc)
dispatch_found-spends ticket tab epoch (some r) s h = elim (Bool-cases (may_dispatch tab epoch r)) [
  | inl fits ↦ rw fits (lookup-remove ticket ticket s.tickets ∙ rw (same_refl ticket) refl)
  | inr no_fit ↦ absurd (cc no_fit)
]

dispatch-stale :
    (now : ℕ) (ticket tab : Text) (epoch : ℕ) (s : Store)
    → IsSpent ticket s
    → (dispatch now ticket tab epoch s).1 ≡ err stale
unfolding dispatch ticketed held dispatch_found
dispatch-stale now ticket tab epoch s h = rw (collect-IsSpent ticket now s h) refl

-- A ticket is good for one dispatch: once a dispatch with it succeeds, every later one fails as stale,
-- whatever operations come between and whatever tab and epoch it names, as long as no approval draws
-- the same random ticket again.
pub dispatch-dispatch :
    (parse : Text → Option Url) (o : Options) (now : ℕ) (ticket tab : Text) (epoch : ℕ) (s : Store)
    {r : Navigation} (ops : List (ℕ × Operation)) (now' : ℕ) (tab' : Text) (epoch' : ℕ)
    → (dispatch now ticket tab epoch s).1 ≡ ok r
    → AllDrawOther ticket ops
    → (dispatch now' ticket tab' epoch' (run parse o ops (dispatch now ticket tab epoch s).0)).1
      ≡ err stale
unfolding dispatch
dispatch-dispatch parse o now ticket tab epoch s ops now' tab' epoch' won d =
    dispatch-stale now' ticket tab' epoch' (run parse o ops (dispatch now ticket tab epoch s).0) (
      run-IsSpent parse o ticket ops _ d (
        dispatch_found-spends ticket tab epoch (ticketed ticket (collect now s)) (collect now s)
          won))
