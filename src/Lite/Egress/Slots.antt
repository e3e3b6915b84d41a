-- ===== src/Lite/Egress/Slots.antt =====
-- `slot`, `open` and `track`: how many connections there are at once. The check of `slot` and the count of `open` stand
-- in one step, since only other continuations run between them; so do the end of a socket and the check of the
-- request that it wakes. An open that is connecting counts twice, as pending and by its socket.
use vibetop.Base.{
  ℕ, zero, suc, ◌+◌, ◌-◌, ◌≤◌, ◌<◌, subst, Bool, true, false, List, [], ◌∷◌, ◌++◌, if◌then◌else◌,
  ◌==◌, leb, arith, keep, not,
}

pub record Pool : Type 0 where
  pub sockets : ℕ
  pub pending : ℕ
  pub connecting : ℕ
  pub waiters : List ℕ

-- A turn of the loop of `slot`, of the request with the number: it waits, is counted, or has waited too long.
unfoldable pub enter : (max : ℕ) → (late : Bool) → ℕ → Pool → Pool
enter max late id s =
    if leb max (s.sockets + s.pending)
    then (if late then s else record s { waiters = s.waiters ++ id ∷ [] })
    else record s { pending = s.pending + 1 }

-- The end of a socket wakes the first that waits.
unfoldable pub wake : (max : ℕ) → (late : Bool) → List ℕ → Pool → Pool
unfolding enter
wake max late [] s = record s { waiters = [] }
wake max late (id ∷ rest) s = enter max late id (record s { waiters = rest })

-- What may happen: a request comes; its time to wait is over; its destination is refused, or has an
-- address to connect to; it has connected or failed; a socket ends.
pub data Step (max : ℕ) : Pool → Pool → Type 0 where
  comes : (id : ℕ) (s : Pool) → Step max s (enter max false id s)
  times_out :
      (id : ℕ) (s : Pool)
      → Step max s (enter max true id (record s { waiters = keep (λ w. not (w == id)) s.waiters }))
  refuses :
      (s : Pool) → s.connecting < s.pending → Step max s (record s { pending = s.pending - 1 })
  tracks :
      (s : Pool)
      → s.connecting < s.pending
      → Step max s (record s { sockets = s.sockets + 1; connecting = s.connecting + 1 })
  settles :
      (s : Pool)
      → 0 < s.connecting
      → Step max s (record s { pending = s.pending - 1; connecting = s.connecting - 1 })
  closes :
      (late : Bool) (s : Pool)
      → 0 < s.sockets
      → Step max s (wake max late s.waiters (record s { sockets = s.sockets - 1 }))

pub data Reach (max : ℕ) (s : Pool) : Pool → Type 0 where
  here : Reach max s s
  next : {t u : Pool} → Reach max s t → Step max t u → Reach max s u

abbrev pub nobody : Pool
nobody = record { sockets = 0; pending = 0; connecting = 0; waiters = [] }

-- The count of an open that is connecting is not of a second connection.
pub record IsBounded (max : ℕ) (s : Pool) : Type 0 where
  pub counted : s.connecting ≤ s.pending
  pub room : s.sockets + s.pending ≤ max + s.connecting

-- As many requests come as there may be connections.
fill : (max n : ℕ) → n ≤ max → Reach max nobody (record nobody { pending = n })
unfolding enter
fill max zero h = here
fill max (suc n) h =
    let s : Pool = record nobody { pending = n } in
    subst (Reach max nobody) (ground (arith, h)) (next (fill max n (omega arith)) (comes 0 s))

drain :
    (max n id : ℕ)
    → Reach max nobody (record nobody { pending = n; waiters = id ∷ [] })
    → Reach max nobody (record nobody { waiters = id ∷ [] })
drain max zero id r = r
drain max (suc n) id r =
    let s : Pool = record nobody { pending = suc n; waiters = id ∷ [] } in
    drain max n id (
      subst (λ k. Reach max nobody (record nobody { pending = k; waiters = id ∷ [] })) (omega arith)
        (next r (refuses s (omega arith))))

-- A refusal wakes no one: under every limit there is a run that ends with no connection and none
-- pending, and with a request that still waits.
pub Reach-stalled : (max id : ℕ) → Reach max nobody (record nobody { waiters = id ∷ [] })
unfolding enter
Reach-stalled max id =
    let s : Pool = record nobody { pending = max } in
    drain max max id
      (subst (Reach max nobody) (ground arith) (next (fill max max (omega arith)) (comes id s)))
