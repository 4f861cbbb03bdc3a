-- ===== src/Carport/Supervisor.antt =====
-- internal/carport/supervisor.go and control.go: the loop of one driver instance. What the
-- process, the driver and the clock do in a round is its input; the driver events that the round
-- appends to the store and the states that it writes are its output. Times are nanoseconds; a
-- duration is the bit pattern of an int64.
pub mod Budget
pub mod Rounds
pub mod Conforms
use gohome.Prelude.{
  ℕ, zero, suc, ◌+◌, ◌-◌, ◌*◌, ◌%◌, ◌^◌, String, Bool, true, false, not, ◌&&◌, List, [], ◌∷◌, ◌++◌,
  Option, none, some, ltb, leb, length, keep_if, ◌==◌, if◌then◌else◌,
}
use gohome.Carport.Fsm.{
  State, declared, spawning, awaiting_handshake, running, failed, backoff, quarantined, stopping,
  stopped, state_beq, state_string,
}

-- the fields that the supervisor computes with
pub record LifecycleConfig : Type 0 where
  pub health_failures_to_restart : ℕ
  pub restart_backoff_initial : ℕ
  pub restart_backoff_max : ℕ
  pub restart_budget_window : ℕ
  pub restart_budget_max : ℕ

-- `conn` says whether the instance holds a connection.
pub record ManagedInstance : Type 0 where
  pub id : String
  pub lifecycle : LifecycleConfig
  pub state : State
  pub conn : Bool
  pub restart_history : List ℕ

-- an event of the store: a driver event with its kind and detail, or an entity with its device and
-- its driver instance
pub data DriverEvent : Type 0 where
  driver_event : String → String → DriverEvent
  entity_registered : String → String → DriverEvent

-- What a piece of the loop leaves: the instance, the events appended and the states written, in
-- order.
pub record Effect : Type 0 where
  pub instance_after : ManagedInstance
  pub events : List DriverEvent
  pub written : List State

abbrev pub quiet : ManagedInstance → Effect
quiet m = record { instance_after = m; events = []; written = [] }

abbrev pub set_state : State → Effect → Effect
set_state s e = record {
  instance_after = record (e.instance_after) { state = s };
  events = e.events;
  written = e.written ++ (s ∷ []);
}

abbrev pub emit : String → String → Effect → Effect
emit kind detail e = record e { events = e.events ++ (driver_event kind detail ∷ []) }

-- the entities of the handshake response; an empty driver instance is filled in
abbrev pub register_all : List (String × String) → Effect → Effect
register_all [] e = e
register_all ((device, owner) ∷ rest) e = register_all rest (record e {
  events =
      e.events
      ++ (entity_registered device (if owner == "" then e.instance_after.id else owner) ∷ []);
})

abbrev pub set_conn : Bool → Effect → Effect
set_conn b e = record e { instance_after = record (e.instance_after) { conn = b } }

-- int64: `a > b` on bit patterns
abbrev pub signed_gt : ℕ → ℕ → Bool
signed_gt a b = ltb ((b + 2 ^ 63) % 2 ^ 64) ((a + 2 ^ 63) % 2 ^ 64)

-- the loop that doubles, with the rounds that are left
unfoldable pub double_backoff : ℕ → ℕ → ℕ → ℕ
double_backoff zero max_backoff b = b
double_backoff (suc rounds) max_backoff b =
    let doubled = b * 2 % 2 ^ 64 in
    let rest = double_backoff rounds max_backoff doubled in
    if signed_gt doubled max_backoff then max_backoff else rest

unfoldable pub backoff_delay : LifecycleConfig → ℕ → ℕ
unfolding double_backoff
backoff_delay c used = double_backoff (used - 1) c.restart_backoff_max c.restart_backoff_initial

-- the restarts in the window that ends now, this one included; a time before the epoch cuts
-- nothing off
unfoldable pub fresh_history : LifecycleConfig → ℕ → List ℕ → List ℕ
fresh_history c now history =
    keep_if (λ ts. leb (now - c.restart_budget_window) ts) history ++ (now ∷ [])

-- `cancelled` says whether the context ends before the sleep does; `delay_text` prints the delay.
-- The result is whether to go on.
unfoldable pub schedule_backoff : (ℕ → String) → ℕ → Bool → Effect → Effect × Bool
unfolding fresh_history backoff_delay
schedule_backoff delay_text now cancelled e =
    let m = e.instance_after in
    let fresh = fresh_history m.lifecycle now m.restart_history in
    let e' = record e { instance_after = record m { restart_history = fresh } } in
    if ltb m.lifecycle.restart_budget_max (length fresh)
    then (set_state quarantined (emit "quarantined" "restart budget exhausted" e'), false)
    else (
      set_state backoff
          (emit "backoff_scheduled" (delay_text (backoff_delay m.lifecycle (length fresh))) e'),
      not cancelled,
    )

-- the probes that `runHealth` sees before its context ends, true for a healthy answer; the result
-- is false if too many in a row failed
unfoldable pub run_health : ℕ → ℕ → List Bool → Bool
run_health max failures [] = true
run_health max failures (true ∷ probes) = run_health max 0 probes
run_health max failures (false ∷ probes) =
    let rest = run_health max (failures + 1) probes in
    if leb max (failures + 1) then false else rest

-- What happens in a round: `spawn` fails, the handshake fails, or the driver runs. `ran` holds the
-- process id, the manifest version, the initial entities, the probes, and whether the context ended meanwhile.
pub data Round : Type 0 where
  no_spawn : String → Round
  no_handshake : String → String → Round
  ran : String → String → List (String × String) → List Bool → Bool → Round

-- the end of a failed round
abbrev pub fail_round : (ℕ → String) → ℕ → Bool → Effect → Effect × Bool
fail_round delay_text now cancelled e =
    schedule_backoff delay_text now cancelled (set_state failed e)

-- from the handshake to the end of the connection; the context is seen done, or the driver failed
abbrev pub after_run : (ℕ → String) → ℕ → Bool → Bool → Bool → Effect → Effect × Bool
after_run delay_text now cancelled healthy true e =
    (set_state stopped (emit "stopped" "daemon shutdown" e), false)
after_run delay_text now cancelled healthy false e =
    fail_round delay_text now cancelled
      (emit "failed" (if not healthy then "health failed" else "stream closed") e)

-- the parts of a round before it ends: the driver did not start, did not shake hands, or ran
abbrev pub spawn_failed : String → ManagedInstance → Effect
spawn_failed why m = emit "spawn_error" why (set_state spawning (quiet m))

abbrev pub process_started : String → ManagedInstance → Effect
process_started pid m =
    emit "spawned" pid (set_state awaiting_handshake (set_state spawning (quiet m)))

abbrev pub connection_closed : String → String → List (String × String) → ManagedInstance → Effect
connection_closed pid version entities m = set_conn false (
    register_all entities
      (emit "started" version (set_conn true (set_state running (process_started pid m)))))

-- one round of the loop in `runLifecycle`, past the test of the context at its head
unfoldable pub run_round : (ℕ → String) → ℕ → Bool → Round → ManagedInstance → Effect × Bool
unfolding schedule_backoff run_health
run_round delay_text now cancelled (no_spawn why) m =
    fail_round delay_text now cancelled (spawn_failed why m)
run_round delay_text now cancelled (no_handshake pid why) m =
    fail_round delay_text now cancelled (emit "handshake_failed" why (process_started pid m))
run_round delay_text now cancelled (ran pid version entities probes done) m =
    after_run delay_text now cancelled (run_health m.lifecycle.health_failures_to_restart 0 probes)
      done (connection_closed pid version entities m)

-- a round with the time of its failure and whether the context ends in the sleep after it
pub record Turn : Type 0 where
  pub round : Round
  pub now : ℕ
  pub cancelled : Bool

abbrev pub join : Effect → Effect → Effect
join before later = record {
  instance_after = later.instance_after;
  events = before.events ++ later.events;
  written = before.written ++ later.written;
}

-- the loop, for as many turns as the environment gives it
unfoldable pub run_lifecycle : (ℕ → String) → List Turn → ManagedInstance → Effect
unfolding run_round
run_lifecycle delay_text [] m = quiet m
run_lifecycle delay_text (t ∷ rest) m =
    let (e, goes_on) = run_round delay_text t.now t.cancelled t.round m in
    let later = run_lifecycle delay_text rest e.instance_after in
    if goes_on then join e later else e

-- the first part of `shutdownInstance`; the remote call and the wait for the loop follow it
unfoldable pub begin_shutdown : ManagedInstance → Effect
begin_shutdown m =
    let e = set_state stopping (quiet m) in
    if state_beq m.state quarantined
    then e
    else if state_beq m.state stopped
    then e
    else emit "stopping" (state_string m.state) e

-- `RestartInstance` on a known instance, up to the new loop
unfoldable pub restart_instance : ManagedInstance → Effect
unfolding begin_shutdown
restart_instance m =
    let e = begin_shutdown m in
    let m' = record (e.instance_after) { restart_history = []; conn = false } in
    emit "restart_manual" "operator" (set_state declared (record e { instance_after = m' }))
