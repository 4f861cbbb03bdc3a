-- ===== src/Carport/Supervisor/Rounds.antt =====
-- The states that a round of the loop writes, against `Next` of fsm.go.
use gohome.Prelude.{
  String, ◌≡◌, refl, sym, ap, subst, Bool, true, false, List, [], ◌∷◌, ◌++◌, if◌then◌else◌,
}
use gohome.Carport.Fsm.{
  State, spawning, awaiting_handshake, running, failed, stopping, stopped, Trigger, spawned,
  spawn_error, handshake_ok, handshake_fail, health_fail, stream_error, shutdown, exited,
  transitions, next, moved,
}
use gohome.Carport.Supervisor.{
  LifecycleConfig, ManagedInstance, Effect, Round, no_spawn, no_handshake, ran, run_health,
  register_all, spawn_failed, process_started, connection_closed, set_state, set_conn, emit,
}
use gohome.Carport.Supervisor.Budget.{instance-register_all}

-- a trigger after which the loop writes the new state, or one after which it does not
pub data Move : Type 0 where
  writes passes : Trigger → Move

-- from the state, `Next` allows the moves one after the other; the states written, and the last
pub data Walk : State → List Move → List State → State → Type 0 where
  no_move : {s : State} → Walk s [] [] s
  written :
      {s v : State} {ms : List Move} {us : List State} (t : Trigger) (u : State)
      → next s t ≡ moved u
      → Walk u ms us v
      → Walk s (writes t ∷ ms) (u ∷ us) v
  passed :
      {s v : State} {ms : List Move} {us : List State} (t : Trigger) (u : State)
      → next s t ≡ moved u
      → Walk u ms us v
      → Walk s (passes t ∷ ms) us v

-- What has happened in a round after its first trigger, up to the failure or the stop. At the
-- daemon's shutdown it is another goroutine that writes `stopping`.
abbrev pub moves_of : LifecycleConfig → Round → List Move
moves_of c (no_spawn why) = writes spawn_error ∷ []
moves_of c (no_handshake pid why) = writes spawned ∷ writes handshake_fail ∷ []
moves_of c (ran pid version entities probes true) =
    writes spawned ∷ writes handshake_ok ∷ passes shutdown ∷ writes exited ∷ []
moves_of c (ran pid version entities probes false) =
    writes spawned
    ∷ writes handshake_ok
    ∷ writes
        (if run_health c.health_failures_to_restart 0 probes then stream_error else health_fail)
    ∷ []

pub Walk-append :
    {s u v : State} {ms ns : List Move} {us vs : List State}
    → Walk s ms us u
    → Walk u ns vs v
    → Walk s (ms ++ ns) (us ++ vs) v
Walk-append no_move k = k
Walk-append (written t x e h) k = written t x e (Walk-append h k)
Walk-append (passed t x e h) k = passed t x e (Walk-append h k)

-- a round up to its failure: what is known of the effect that `schedule_backoff` is given
pub record IsFailed (first : Trigger) (round : Round) (m : ManagedInstance) (e : Effect)
    : Type 0 where
  pub lifecycle : e.instance_after.lifecycle ≡ m.lifecycle
  pub walk :
      Walk m.state (writes first ∷ moves_of m.lifecycle round) (e.written ++ (failed ∷ [])) failed

written-register_all :
    (entities : List (String × String)) (e : Effect) → (register_all entities e).written ≡ e.written
written-register_all [] e = refl
written-register_all ((device, owner) ∷ rest) e = written-register_all rest _

module _ (first : Trigger) (m : ManagedInstance)
    (begins : next m.state first ≡ moved spawning) where
  pub IsFailed-no_spawn : (why : String) → IsFailed first (no_spawn why) m (spawn_failed why m)
  unfolding next transitions
  IsFailed-no_spawn why = record {
    lifecycle = refl;
    walk = written first spawning begins (written spawn_error failed refl no_move);
  }

  pub IsFailed-no_handshake :
      (pid why : String)
      → IsFailed first
          (no_handshake pid why)
          m
          (emit "handshake_failed" why (process_started pid m))
  unfolding next transitions
  IsFailed-no_handshake pid why = record {
    lifecycle = refl;
    walk =
        written first spawning begins
          (written spawned awaiting_handshake refl (written handshake_fail failed refl no_move));
  }

  pub IsFailed-ran :
      (pid version cause : String) (entities : List (String × String)) (probes : List Bool)
      → IsFailed first
          (ran pid version entities probes false)
          m
          (emit "failed" cause (connection_closed pid version entities m))
  unfolding next transitions
  IsFailed-ran pid version cause entities probes =
      let e = emit "started" version (set_conn true (set_state running (process_started pid m))) in
      record {
        lifecycle = ap (λ n. n.lifecycle) (instance-register_all entities e);
        walk =
            subst
              (λ l.
                Walk m.state
                  (writes first ∷ moves_of m.lifecycle (ran pid version entities probes false))
                  (l ++ (failed ∷ [])) failed)
              (sym (written-register_all entities e))
              (written first spawning begins (
                written spawned awaiting_handshake refl (
                  written handshake_ok running refl
                    (of_probes (run_health m.lifecycle.health_failures_to_restart 0 probes)))));
      }
    where
      of_probes :
          (healthy : Bool)
          → Walk running
              (writes (if healthy then stream_error else health_fail) ∷ [])
              (failed ∷ [])
              failed
      of_probes true = written stream_error failed refl no_move
      of_probes false = written health_fail failed refl no_move

  pub stopped-ran :
      (pid version : String) (entities : List (String × String)) (probes : List Bool)
      → Walk m.state
          (writes first ∷ moves_of m.lifecycle (ran pid version entities probes true))
          ((connection_closed pid version entities m).written ++ (stopped ∷ []))
          stopped
  unfolding next transitions
  stopped-ran pid version entities probes =
      subst
        (λ l.
          Walk m.state (writes first ∷ moves_of m.lifecycle (ran pid version entities probes true))
            (l ++ (stopped ∷ [])) stopped)
        (sym (
          written-register_all entities
            (emit "started" version (set_conn true (set_state running (process_started pid m))))))
        (written first spawning begins (
          written spawned awaiting_handshake refl (
            written handshake_ok running refl
              (passed shutdown stopping refl (written exited stopped refl no_move)))))
