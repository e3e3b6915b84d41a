-- ===== src/Lite/MessageGate/Order.antt =====
-- The order and the completeness of the deliveries.
use vibetop.Base.{
  ℕ, ◌≡◌, refl, sym, ◌∙◌, ap, Bool, true, false, ◌&&◌, ◌||◌, Option, List, [], ◌∷◌, ◌++◌,
  append_assoc, append-nil, if◌then◌else◌, if_elim, arith, mem, Text, same, same_refl, lookup,
  codes,
}
use vibetop.Lite.MessageGate.{
  Held, Action, deliver, dispatch, look_up, Gate, has, knows, is_empty, drain_queue, drain, resolve,
  done, hold, Event, arrived, answered, learned, step, run,
}

-- The messages that have reached their listeners, in order.
unfoldable pub seen : List Action → List Held
seen [] = []
seen (deliver m ∷ rest) = m ∷ seen rest
seen (dispatch m ∷ rest) = m ∷ seen rest
seen (look_up id physical ∷ rest) = seen rest

-- The messages that arrive, in order.
unfoldable pub arrivals : List Event → List Held
arrivals [] = []
arrivals (arrived physical message ∷ es) =
    record { physical = physical; message = message } ∷ arrivals es
arrivals (answered id physical origin ∷ es) = arrivals es
arrivals (learned physical origin ∷ es) = arrivals es

seen-append : (rest bs : List Action) → seen (rest ++ bs) ≡ seen rest ++ seen bs
unfolding seen
seen-append [] bs = refl
seen-append (deliver m ∷ rest) bs = ap (λ xs. m ∷ xs) (seen-append rest bs)
seen-append (dispatch m ∷ rest) bs = ap (λ xs. m ∷ xs) (seen-append rest bs)
seen-append (look_up id physical ∷ rest) bs = seen-append rest bs

-- The first message of the queue waits for a lookup.
unfoldable pub Blocked : List Held → List Text → Type 0
Blocked [] pending = Unit
Blocked (m ∷ ms) pending = has m.physical pending ≡ true

-- No delivery is under way, and a queue waits for a lookup.
pub record IsResting (s : Gate) : Type 0 where
  pub idle : s.delivering ≡ false
  pub blocked : Blocked s.held s.pending

-- What a transition with arrivals `ms` owes.
abbrev Keeps : Gate → List Held → Gate × List Action → Type 0
Keeps s ms r = IsResting r.0 × (seen r.1 ++ r.0.held ≡ s.held ++ ms)

drain_queue-Keeps :
    (ms : List Held) (s : Gate)
    → s.delivering ≡ false
    → IsResting (drain_queue ms s).0 × (seen (drain_queue ms s).1 ++ (drain_queue ms s).0.held ≡ ms)
unfolding drain_queue seen Blocked
drain_queue-Keeps [] s h = (record { idle = h; blocked = tt }, refl)
drain_queue-Keeps (m ∷ ms) s h =
    let (rest, order) = drain_queue-Keeps ms (record s { delivering = false }) refl in
    if_elim (λ (r : Gate × List Action). IsResting r.0 × (seen r.1 ++ r.0.held ≡ m ∷ ms))
      (has m.physical s.pending) (λ waits. (record { idle = h; blocked = waits }, refl))
      (λ goes. (rest, ap (λ xs. m ∷ xs) order))

has_self : (k : Text) (xs : List Text) → has k (k ∷ xs) ≡ true
unfolding has
has_self k xs = rw (same_refl k) refl

-- A queue that is blocked stays so when it gets longer, and when more senders are looked up.
Blocked-append :
    (ms : List Held) (m : Held) (pending : List Text)
    → has m.physical pending ≡ true
    → Blocked ms pending
    → Blocked (ms ++ m ∷ []) pending
unfolding Blocked
Blocked-append [] m pending h b = h
Blocked-append (_ ∷ ms) m pending h b = b

Blocked-cons :
    (ms : List Held) (k : Text) (pending : List Text)
    → Blocked ms pending
    → Blocked ms (k ∷ pending)
unfolding Blocked has
Blocked-cons [] k pending b = b
Blocked-cons (m ∷ ms) k pending b = ground (arith, b)

resolve-Keeps :
    (m : Held) (s : Gate)
    → IsResting s
    → Keeps s (m ∷ []) (resolve m.physical (record s { held = s.held ++ m ∷ [] }))
unfolding resolve seen
resolve-Keeps m s h =
    let longer : Gate = record s { held = s.held ++ m ∷ [] } in
    if_elim (Keeps s (m ∷ [])) (has m.physical s.pending)
      (λ known. (
        record { idle = h.idle; blocked = Blocked-append s.held m s.pending known h.blocked },
        refl,
      ))
      (λ new. (
        record {
          idle = h.idle;
          blocked =
              Blocked-append s.held m (m.physical ∷ s.pending) (has_self m.physical s.pending)
                (Blocked-cons s.held m.physical s.pending h.blocked);
        },
        refl,
      ))

done-Keeps :
    (id : ℕ) (physical : Text) (origin : Option Text) (s : Gate)
    → IsResting s
    → Keeps s [] (done id physical origin s)
unfolding done drain seen
done-Keeps id physical origin s h =
    if_elim (Keeps s []) (mem id s.settled) (λ again. (h, sym (append-nil s.held)))
      (λ first.
        let (rest, order) = drain_queue-Keeps s.held _ h.idle in
        (rest, order ∙ sym (append-nil s.held)))

clash {ℓ} : {A : Type ℓ} → true ≡ false → A
clash h = ground arith

is_empty→nil : (ms : List Held) → is_empty ms ≡ true → ms ≡ []
unfolding is_empty
is_empty→nil [] h = refl
is_empty→nil (_ ∷ _) h = ground arith

hold-Keeps :
    (physical : Text) (message : ℕ) (s : Gate)
    → IsResting s
    → Keeps s
        (record { physical = physical; message = message } ∷ [])
        (step (arrived physical message) s)
unfolding step hold drain seen
hold-Keeps physical message s h =
    let m : Held = record { physical = physical; message = message } in
    let known = same physical (codes "null") || knows (lookup physical s.origins) in
    let longer : Gate = record s { held = s.held ++ m ∷ [] } in
    let Kept : Bool × (Gate × List Action) → Type 0 =
      λ r. Keeps s (m ∷ []) (r.1.0, if r.0 then r.1.1 else dispatch m ∷ []) in
    if_elim Kept s.delivering (λ on. clash (sym on ∙ h.idle))
      (λ off.
        if_elim Kept (known && is_empty s.held)
          (λ at_once. (
            h,
            behind_none m s.held (is_empty→nil s.held (and_right known (is_empty s.held) at_once)),
          ))
          (λ behind.
            if_elim (Keeps s (m ∷ [])) known
              (λ _. drain_queue-Keeps (s.held ++ m ∷ []) longer h.idle) (λ _. resolve-Keeps m s h)))
  where
    and_right : (a b : Bool) → (a && b) ≡ true → b ≡ true
    and_right true b h = h
    and_right false b h = ground arith

    behind_none : (m : Held) (ms : List Held) → ms ≡ [] → m ∷ ms ≡ ms ++ m ∷ []
    behind_none m ms h = rw h refl

step-Keeps : (e : Event) (s : Gate) → IsResting s → Keeps s (arrivals (e ∷ [])) (step e s)
unfolding step arrivals seen
step-Keeps (arrived physical message) s h = hold-Keeps physical message s h
step-Keeps (answered id physical origin) s h = done-Keeps id physical origin s h
step-Keeps (learned physical origin) s h =
    (record { idle = h.idle; blocked = h.blocked }, sym (append-nil s.held))

arrivals-cons : (e : Event) (es : List Event) → arrivals (e ∷ es) ≡ arrivals (e ∷ []) ++ arrivals es
unfolding arrivals
arrivals-cons (arrived physical message) es = refl
arrivals-cons (answered id physical origin) es = refl
arrivals-cons (learned physical origin) es = refl

run-Keeps : (es : List Event) (s : Gate) → IsResting s → Keeps s (arrivals es) (run es s)
unfolding run arrivals seen
run-Keeps [] s h = (h, sym (append-nil s.held))
run-Keeps (e ∷ es) s h =
    let (t, actions) = step e s in
    let (u, more) = run es t in
    let (still, now) = step-Keeps e s h in
    let (at_end, later) = run-Keeps es t still in
    (
      at_end,
      ap (λ xs. xs ++ u.held) (seen-append actions more)
          ∙ append_assoc (seen actions) (seen more) u.held
          ∙ ap (λ xs. seen actions ++ xs) later
          ∙ sym (append_assoc (seen actions) t.held (arrivals es))
          ∙ ap (λ xs. xs ++ arrivals es) now
          ∙ append_assoc s.held (arrivals (e ∷ [])) (arrivals es)
          ∙ ap (λ xs. s.held ++ xs) (sym (arrivals-cons e es)),
    )

none_held : (ms : List Held) (pending : List Text) → Blocked ms pending → pending ≡ [] → ms ≡ []
unfolding Blocked has
none_held [] pending b h = refl
none_held (m ∷ ms) pending b h = clash (sym b ∙ ap (has m.physical) h)

-- Of any messages that arrive, those that have reached their listeners and those still held are, in
-- this order, just the messages held before and the arrived ones, in the order of arrival: none is
-- lost, doubled or overtaken. And a message is held only behind one whose sender is being looked up:
-- once no lookup is awaited, all have been delivered.
pub run-order :
    (es : List Event) (s : Gate)
    → IsResting s
    → IsResting (run es s).0
      × (seen (run es s).1 ++ (run es s).0.held ≡ s.held ++ arrivals es)
      × ((run es s).0.pending ≡ [] → seen (run es s).1 ≡ s.held ++ arrivals es)
run-order es s h =
    let (resting, order) = run-Keeps es s h in
    let r = run es s in
    (
      resting,
      order,
      λ answered_all.
          sym (append-nil (seen r.1))
          ∙ ap (λ xs. seen r.1 ++ xs)
              (sym (none_held r.0.held r.0.pending resting.blocked answered_all))
          ∙ order,
    )
