-- ===== src/Term/Watch/Budget.antt =====
-- Recoveries are bounded: after three without output of the shell, the watch only asks the user.
use vibetop.Base.{
  ℕ, ◌+◌, ◌-◌, ◌≤◌, ◌≡◌, refl, sym, ◌∙◌, ap, Bool, true, false, ◌&&◌, ◌||◌, not, List, [], ◌∷◌,
  ◌++◌, if◌then◌else◌, if_elim, ltb, leb, arith,
}
use vibetop.Term.Watch.{
  Watch, Env, Action, show, log, refresh_token, reload, wake, notice_closed, back_online,
  retry_delay, reconnect, reload_page, give_up, failed_retry, retry_limit, recover, watch_socket,
  tick, is_closed, is_reconnecting,
}

abbrev is_recovery : Action → Bool
is_recovery refresh_token = true
is_recovery reload = true
is_recovery _ = false

-- How often the watch recovers by itself.
unfoldable pub recoveries : List Action → ℕ
recoveries [] = 0
recoveries (a ∷ actions) = (if is_recovery a then 1 else 0) + recoveries actions

pub recoveries-append :
    (xs ys : List Action) → recoveries (xs ++ ys) ≡ recoveries xs + recoveries ys
unfolding recoveries
recoveries-append [] ys = omega arith
recoveries-append (x ∷ xs) ys = omega (arith, recoveries-append xs ys)

-- The stored count is the script's, unless the script has stopped, when it may be ahead.
pub record IsCounted (s : Watch) : Type 0 where
  pub few : s.stored ≤ 3
  pub kept : s.retries ≤ s.stored
  pub going : s.stopped ≡ false → s.stored ≡ s.retries

-- Each recovery is counted in the storage.
abbrev pub Spends : Watch → Watch × List Action → Type 0
Spends s x = IsCounted x.0 × (recoveries x.1 + s.stored ≡ x.0.stored)

pub nothing : (s : Watch) → 0 + s.stored ≡ s.stored
nothing s = omega arith

reconnect-Spends :
    (e : Env) (s : Watch)
    → s.stopped ≡ false
    → leb 3 s.retries ≡ false
    → IsCounted s
    → Spends s (reconnect e s)
unfolding reconnect recoveries
reconnect-Spends e s up room h =
    let even = h.going up in
    if_elim (Spends s) e.storage
      (λ ok.
        (record { few = ground arith; kept = omega arith; going = λ k. refl }, omega (arith, even)))
      (λ full. (record { few = h.few; kept = h.kept; going = λ k. ground arith }, nothing s))

reload_page-Spends :
    (e : Env) (s : Watch)
    → s.stopped ≡ false
    → leb 3 s.retries ≡ false
    → IsCounted s
    → Spends s (reload_page e s)
unfolding reload_page recoveries
reload_page-Spends e s up room h =
    let even = h.going up in
    if_elim (Spends s) e.storage
      (λ ok. (
        record { few = ground arith; kept = omega arith; going = λ k. ground arith },
        omega (arith, even),
      ))
      (λ full. (record { few = h.few; kept = h.kept; going = λ k. ground arith }, nothing s))

give_up-Spends : (e : Env) (s : Watch) → IsCounted s → Spends s (give_up e s)
unfolding give_up recoveries
give_up-Spends e s h = (
  record { few = h.few; kept = h.kept; going = h.going },
  if_elim
      (λ (xs : List Action).
        recoveries (xs ++ show failed_retry ∷ log retry_limit ∷ []) + s.stored ≡ s.stored)
      e.disposable (λ yes. nothing s) (λ no. nothing s),
)

recover-Spends : (e : Env) (s : Watch) → s.stopped ≡ false → IsCounted s → Spends s (recover e s)
unfolding recover recoveries
recover-Spends e s up h =
    let dead = is_closed s.phase in
    let elapsed = e.now - s.since in
    if_elim (Spends s)
      (dead && ltb s.retries 3 && ltb (e.now - s.closed_at) (retry_delay s.retries))
      (λ early. (h, nothing s))
      (λ a.
        if_elim (Spends s) (not dead && ltb elapsed 3000) (λ young. (h, nothing s))
          (λ b.
            if_elim (Spends s) (not dead && ltb elapsed 45000) (λ patient. (h, nothing s))
              (λ c.
                if_elim (Spends s) (leb 3 s.retries) (λ spent. give_up-Spends e s h)
                  (λ room.
                    if_elim (Spends s) (dead && e.owned) (λ own. reconnect-Spends e s up room h)
                      (λ other. reload_page-Spends e s up room h)))))

-- What the first steps of a call leave alone.
abbrev pub Same : Watch → Watch → Type 0
Same s t = (t.stopped ≡ s.stopped) × (t.stored ≡ s.stored) × (t.retries ≡ s.retries)

pub Same-IsCounted : (s t : Watch) → Same s t → IsCounted s → IsCounted t
Same-IsCounted s t (stop, stored, retries) h = record {
  few = omega (arith, stored, h.few);
  kept = omega (arith, stored, retries, h.kept);
  going = λ k. stored ∙ h.going (sym stop ∙ k) ∙ sym retries;
}

-- A call that begins with such steps spends what its rest spends.
pub Same-Spends : (s t : Watch) (x : Watch × List Action) → Same s t → Spends t x → Spends s x
Same-Spends s t x (stop, stored, retries) (h, spent) =
    (h, ap (λ n. recoveries x.1 + n) (sym stored) ∙ spent)

wake-Same : (e : Env) (s : Watch) → Same s (wake e s)
unfolding wake
wake-Same e s =
    if_elim (Same s) s.foreground (λ here. (refl, refl, refl)) (λ back. (refl, refl, refl))

notice_closed-Same : (e : Env) (s : Watch) → Same s (notice_closed e s)
unfolding notice_closed
notice_closed-Same e s =
    if_elim (Same s) (e.socket_closed && not (is_closed s.phase) && not (is_reconnecting s.phase))
      (λ dead. (refl, refl, refl)) (λ live. (refl, refl, refl))

back_online-Same : (e : Env) (s : Watch) → Same s (back_online e s)
unfolding back_online
back_online-Same e s =
    if_elim (Same s) s.was_offline (λ was. (refl, refl, refl)) (λ no. (refl, refl, refl))

watch_socket-Spends :
    (e : Env) (s : Watch) → s.stopped ≡ false → IsCounted s → Spends s (watch_socket e s)
unfolding watch_socket recoveries
watch_socket-Spends e s up h =
    let t = notice_closed e s in
    let same = notice_closed-Same e s in
    let counted = Same-IsCounted s t same h in
    let again = back_online-Same e t in
    Same-Spends s t _ same (
      if_elim (Spends t) t.ready (λ quiet. (counted, nothing t))
        (λ lost.
          if_elim (Spends t) e.online
            (λ on. Same-Spends t (back_online e t) _ again (
              recover-Spends e (back_online e t) (again.0 ∙ same.0 ∙ up)
                (Same-IsCounted t (back_online e t) again counted)))
            (λ off. (
              record { few = counted.few; kept = counted.kept; going = counted.going },
              nothing t,
            ))))

pub tick-Spends : (e : Env) (s : Watch) → IsCounted s → Spends s (tick e s)
unfolding tick recoveries
tick-Spends e s h =
    let t = wake e s in
    let same = wake-Same e s in
    let counted = Same-IsCounted s t same h in
    if_elim (Spends s) (not e.foreground)
      (λ away. (record { few = h.few; kept = h.kept; going = h.going }, nothing s))
      (λ here.
        if_elim (Spends s) (s.stopped || s.exhausted)
          (λ done. Same-Spends s t (t, []) same (counted, nothing t))
          (λ going.
            Same-Spends s t _ same (watch_socket-Spends e t (same.0 ∙ ground arith) counted)))
