-- ===== src/Carport/Supervisor/Budget.antt =====
-- The restart budget and the delay between restarts.
use gohome.Prelude.{
  String, tests, ltb→lt, leb, keep_if, FilteredBy, keep_if-FilteredBy, length-append, ◌↔◌, ◌++◌,
  ◌+◌, ℕ, zero, suc, ◌-◌, ◌*◌, ◌^◌, ◌≤◌, ◌<◌, ◌≡◌, refl, ap, ◌∙◌, Bool, true, false, not, ◌&&◌,
  List, [], ◌∷◌, arith, ltb, length, if◌then◌else◌, Bool-cases, inl, inr,
}
use Prim.Native.Nat.{min}
use native.Mathlib.Nat.{pow-suc}
use gohome.Carport.Supervisor.{
  LifecycleConfig, ManagedInstance, double_backoff, backoff_delay, Effect, Round, no_spawn,
  no_handshake, ran, fresh_history, schedule_backoff, run_round, run_health, register_all,
  spawn_failed, process_started, connection_closed, set_state, set_conn, emit, fail_round,
}
use gohome.Carport.Fsm.{backoff, quarantined, failed, running}

-- one round of the loop doubles, up to the maximum, and does not wrap
double_step :
    (rounds cap b : ℕ)
    → b ≤ cap
    → cap < 2 ^ 62
    → double_backoff (suc rounds) cap b
      ≡ (if ltb cap (b * 2) then cap else double_backoff rounds cap (b * 2))
unfolding double_backoff
double_step rounds cap b h k = ground arith

pow_two_pos : (r : ℕ) → 1 ≤ 2 ^ r
pow_two_pos zero = omega arith
pow_two_pos (suc r) = omega (arith, pow-suc 2 r, pow_two_pos r)

doubled : (b r : ℕ) → b * 2 ^ suc r ≡ b * 2 * 2 ^ r
doubled b r = rw pow-suc (omega arith)

le_times : (x y : ℕ) → 1 ≤ y → x ≤ x * y
le_times x y h = grind arith

double_backoff-min :
    (rounds top b : ℕ)
    → b ≤ top
    → top < 2 ^ 62
    → double_backoff rounds top b ≡ min (b * 2 ^ rounds) top
unfolding double_backoff
double_backoff-min zero top b h k = omega arith
double_backoff-min (suc rounds) top b h k =
    double_step rounds top b h k ∙ elim (Bool-cases (ltb top (b * 2))) [
      | inl over ↦
          rw (over, doubled b rounds)
            (omega
              (tests, ltb→lt top (b * 2) over, le_times (b * 2) (2 ^ rounds) (pow_two_pos rounds)))
      | inr under ↦
          rw (under, doubled b rounds) (double_backoff-min rounds top (b * 2) (ground arith) k)
    ]

-- Where the first delay is at most the maximum, and the maximum below 2 ^ 62 nanoseconds, the delay
-- after the `used`-th restart in the window is the first delay doubled `used - 1` times, cut off
-- at the maximum; the arithmetic of int64 does not wrap.
pub backoff_delay-min :
    (c : LifecycleConfig) (used : ℕ)
    → c.restart_backoff_initial ≤ c.restart_backoff_max
    → c.restart_backoff_max < 2 ^ 62
    → backoff_delay c used ≡ min (c.restart_backoff_initial * 2 ^ (used - 1)) c.restart_backoff_max
unfolding backoff_delay
backoff_delay-min c used h k =
    double_backoff-min (used - 1) c.restart_backoff_max c.restart_backoff_initial h k

-- the first delay in a window is the configured one, even where it exceeds the maximum
pub backoff_delay-first : (c : LifecycleConfig) → backoff_delay c 1 ≡ c.restart_backoff_initial
unfolding backoff_delay
backoff_delay-first c = refl

-- the round ends with the driver failing, and not with the shutdown of the daemon
abbrev pub IsFailure : Round → Type 0
IsFailure (ran pid version entities probes done) = done ≡ false
IsFailure _ = Unit

-- a restart in the window that ends now
abbrev pub IsRecent : LifecycleConfig → ℕ → ℕ → Type 0
IsRecent c now ts = now ≤ ts + c.restart_budget_window

-- the outcome of a failed round of `m`
pub record HasBudget (m : ManagedInstance) (now : ℕ) (cancelled : Bool) (r : Effect × Bool)
    : Type 0 where
  pub recent : List ℕ
  pub in_window : FilteredBy (IsRecent m.lifecycle now) m.restart_history recent
  pub history : r.0.instance_after.restart_history ≡ recent ++ (now ∷ [])
  pub state :
      r.0.instance_after.state
      ≡ (if ltb m.lifecycle.restart_budget_max (length recent + 1) then quarantined else backoff)
  pub goes_on :
      r.1 ≡ (not (ltb m.lifecycle.restart_budget_max (length recent + 1)) && not cancelled)

recent_iff :
    (c : LifecycleConfig) (now ts : ℕ)
    → (leb (now - c.restart_budget_window) ts ≡ true) ↔ IsRecent c now ts
recent_iff c now ts = (λ h. ground (arith, h), λ h. ground (arith, h))

schedule_backoff-HasBudget :
    (delay_text : ℕ → String) (now : ℕ) (cancelled : Bool) (e : Effect)
    → HasBudget e.instance_after now cancelled (schedule_backoff delay_text now cancelled e)
unfolding schedule_backoff fresh_history
schedule_backoff-HasBudget delay_text now cancelled e =
    let m = e.instance_after in
    let recent =
      keep_if (λ ts. leb (now - m.lifecycle.restart_budget_window) ts) m.restart_history in
    let used : length (recent ++ (now ∷ [])) ≡ length recent + 1 =
      length-append recent (now ∷ []) in
    let kept =
      keep_if-FilteredBy (IsRecent m.lifecycle now)
        (λ ts. leb (now - m.lifecycle.restart_budget_window) ts) (recent_iff m.lifecycle now)
        m.restart_history in
    rw used (elim (Bool-cases (ltb m.lifecycle.restart_budget_max (length recent + 1))) [
      | inl over ↦ rw over (record {
        recent = recent;
        in_window = kept;
        history = refl;
        state = rw over refl;
        goes_on = rw over refl;
      })
      | inr under ↦ rw under (record {
        recent = recent;
        in_window = kept;
        history = refl;
        state = rw under refl;
        goes_on = rw under refl;
      })
    ])

pub instance-register_all :
    (entities : List (String × String)) (e : Effect)
    → (register_all entities e).instance_after ≡ e.instance_after
instance-register_all [] e = refl
instance-register_all ((device, owner) ∷ rest) e = instance-register_all rest _

fail_round-HasBudget :
    (delay_text : ℕ → String) (now : ℕ) (cancelled : Bool) (m : ManagedInstance) (e : Effect)
    → e.instance_after.lifecycle ≡ m.lifecycle
    → e.instance_after.restart_history ≡ m.restart_history
    → HasBudget m now cancelled (fail_round delay_text now cancelled e)
fail_round-HasBudget delay_text now cancelled m e same kept =
    let h = schedule_backoff-HasBudget delay_text now cancelled (set_state failed e) in
    record {
      recent = h.recent;
      in_window = rw (← same, ← kept) h.in_window;
      history = h.history;
      state = h.state ∙ rw same refl;
      goes_on = h.goes_on ∙ rw same refl;
    }

-- A round that ends with the driver failing keeps the restarts of the window, which are those not
-- longer ago than it lasts, in their order, and adds this one. If they are then more than the budget, the instance is
-- quarantined and the loop ends; else it backs off, and the loop goes on unless its context ends
-- during the sleep.
pub run_round-HasBudget :
    (delay_text : ℕ → String) (now : ℕ) (cancelled : Bool) (round : Round) (m : ManagedInstance)
    → IsFailure round
    → HasBudget m now cancelled (run_round delay_text now cancelled round m)
unfolding run_round
run_round-HasBudget delay_text now cancelled (no_spawn why) m h =
    fail_round-HasBudget delay_text now cancelled m (spawn_failed why m) refl refl
run_round-HasBudget delay_text now cancelled (no_handshake pid why) m h =
    fail_round-HasBudget delay_text now cancelled m
      (emit "handshake_failed" why (process_started pid m)) refl refl
run_round-HasBudget delay_text now cancelled (ran pid version entities probes true) m h = cc
run_round-HasBudget delay_text now cancelled (ran pid version entities probes false) m h =
    let e = emit "started" version (set_conn true (set_state running (process_started pid m))) in
    let same = instance-register_all entities e in
    fail_round-HasBudget delay_text now cancelled m
      (emit "failed"
        (if not (run_health m.lifecycle.health_failures_to_restart 0 probes)
          then "health failed"
          else "stream closed")
        (connection_closed pid version entities m))
      (ap (λ n. n.lifecycle) same) (ap (λ n. n.restart_history) same)
