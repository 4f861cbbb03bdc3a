-- ===== src/Carport/Supervisor/Conforms.antt =====
-- The states that the loop writes, against `Next` of fsm.go on the triggers of its rounds.
use gohome.Prelude.{
  ℕ, String, ◌≡◌, refl, sym, ap, subst, ◌∙◌, inl, inr, Bool, true, false, not, List, [], ◌∷◌, ◌++◌,
  ltb, length, if◌then◌else◌, Bool-cases,
}
use mathlib.Core.List.{append_assoc}
use gohome.Carport.Fsm.{
  State, spawning, failed, backoff, quarantined, Trigger, backoff_scheduled, backoff_elapsed,
  budget_exhausted, transitions, next, moved,
}
use gohome.Carport.Supervisor.{
  LifecycleConfig, ManagedInstance, Effect, Round, no_spawn, no_handshake, ran, Turn,
  schedule_backoff, run_health, run_round, run_lifecycle, fresh_history, spawn_failed,
  process_started, connection_closed, emit, fail_round, join,
}
use gohome.Carport.Supervisor.Budget.{IsFailure}
use gohome.Carport.Supervisor.Rounds.{
  Move, writes, passes, Walk, no_move, written, passed, moves_of, Walk-append, IsFailed,
  IsFailed-no_spawn, IsFailed-no_handshake, IsFailed-ran, stopped-ran,
}

-- The moves of the loop over its turns. A failed round backs off, and the next turn follows unless
-- the context ends in the sleep; or its budget is exhausted, before a state `backoff` is written.
pub data Observed (c : LifecycleConfig) : Trigger → List Turn → List Move → Type 0 where
  no_turn : {first : Trigger} → Observed c first [] []
  shut_down :
      {first : Trigger} {t : Turn} {rest : List Turn}
      → ¬ IsFailure t.round
      → Observed c first (t ∷ rest) (writes first ∷ moves_of c t.round)
  exhausted :
      {first : Trigger} {t : Turn} {rest : List Turn}
      → IsFailure t.round
      → Observed c first (t ∷ rest) (
          writes first
          ∷ (moves_of c t.round ++ (passes backoff_scheduled ∷ writes budget_exhausted ∷ [])))
  gave_up :
      {first : Trigger} {t : Turn} {rest : List Turn}
      → IsFailure t.round
      → t.cancelled ≡ true
      → Observed c first
          (t ∷ rest)
          (writes first ∷ (moves_of c t.round ++ (writes backoff_scheduled ∷ [])))
  retried :
      {first : Trigger} {t : Turn} {rest : List Turn} {ms : List Move}
      → IsFailure t.round
      → t.cancelled ≡ false
      → Observed c backoff_elapsed rest ms
      → Observed c first
          (t ∷ rest)
          (writes first ∷ (moves_of c t.round ++ (writes backoff_scheduled ∷ ms)))

-- what the loop over the turns has left
pub record Follows (first : Trigger) (turns : List Turn) (m : ManagedInstance) (e : Effect)
    : Type 0 where
  pub moves : List Move
  pub observed : Observed m.lifecycle first turns moves
  pub walk : Walk m.state moves e.written e.instance_after.state

-- how `schedule_backoff` ends a failed round that has left the effect `e`
data IsEnded (cancelled : Bool) (e : Effect) (r : Effect × Bool) : Type 0 where
  out_of_budget :
      r.0.written ≡ e.written ++ (failed ∷ quarantined ∷ [])
      → r.0.instance_after.state ≡ quarantined
      → r.1 ≡ false
      → IsEnded cancelled e r
  waits :
      r.0.written ≡ e.written ++ (failed ∷ backoff ∷ [])
      → r.0.instance_after.state ≡ backoff
      → r.1 ≡ not cancelled
      → r.0.instance_after.lifecycle ≡ e.instance_after.lifecycle
      → IsEnded cancelled e r

fail_round-IsEnded :
    (delay_text : ℕ → String) (now : ℕ) (cancelled : Bool) (e : Effect)
    → IsEnded cancelled e (fail_round delay_text now cancelled e)
unfolding schedule_backoff
fail_round-IsEnded delay_text now cancelled e =
    let m = e.instance_after in
    elim (Bool-cases (
      ltb m.lifecycle.restart_budget_max
        (length (fresh_history m.lifecycle now m.restart_history)))) [
          | inl over ↦
              rw over
                (out_of_budget (append_assoc e.written (failed ∷ []) (quarantined ∷ [])) refl refl)
          | inr under ↦
              rw under (waits (append_assoc e.written (failed ∷ []) (backoff ∷ [])) refl refl refl)
        ]

-- a failed round and what the loop makes of its result
module _ (first : Trigger) (t : Turn) (rest : List Turn) (m : ManagedInstance)
    (failure : IsFailure t.round) where
  -- the walk of a failed round, with what follows the failure
  extended :
      (e e' : Effect) (ms : List Move) (us : List State)
      → IsFailed first t.round m e
      → e'.written ≡ e.written ++ (failed ∷ us)
      → Walk failed ms us e'.instance_after.state
      → Walk m.state
          (writes first ∷ (moves_of m.lifecycle t.round ++ ms))
          e'.written
          e'.instance_after.state
  extended e e' ms us f h k =
      subst
        (λ l.
          Walk m.state (writes first ∷ (moves_of m.lifecycle t.round ++ ms)) l
            e'.instance_after.state)
        (append_assoc e.written (failed ∷ []) us ∙ sym h) (Walk-append f.walk k)

  Follows-failed :
      (e : Effect) (r : Effect × Bool) (later : Effect)
      → IsFailed first t.round m e
      → IsEnded t.cancelled e r
      → (r.0.instance_after.state ≡ backoff → Follows backoff_elapsed rest r.0.instance_after later)
      → Follows first (t ∷ rest) m (if r.1 then join r.0 later else r.0)
  unfolding next transitions
  Follows-failed e r later f (out_of_budget w s off) ih = rw off (record {
    moves =
        writes first
        ∷ (moves_of m.lifecycle t.round
            ++ (passes backoff_scheduled ∷ writes budget_exhausted ∷ []));
    observed = exhausted failure;
    walk =
        extended e r.0 (passes backoff_scheduled ∷ writes budget_exhausted ∷ []) (quarantined ∷ [])
          f w
          (rw s (
            passed backoff_scheduled backoff refl
              (written budget_exhausted quarantined refl no_move)));
  })
  Follows-failed e r later f (waits w s on same) ih = elim (Bool-cases t.cancelled) [
    | inl ended ↦
        let off : r.1 ≡ false = on ∙ ap not ended in
        rw off (record {
          moves = writes first ∷ (moves_of m.lifecycle t.round ++ (writes backoff_scheduled ∷ []));
          observed = gave_up failure ended;
          walk =
              extended e r.0 (writes backoff_scheduled ∷ []) (backoff ∷ []) f w
                (rw s (written backoff_scheduled backoff refl no_move));
        })
    | inr sleeps ↦
        let goes : r.1 ≡ true = on ∙ ap not sleeps in
        let k = ih s in
        rw goes (record {
          moves =
              writes first ∷ (moves_of m.lifecycle t.round ++ (writes backoff_scheduled ∷ k.moves));
          observed = retried failure sleeps (
              subst (λ c. Observed c backoff_elapsed rest k.moves) (same ∙ f.lifecycle) k.observed);
          walk =
              extended e (join r.0 later) (writes backoff_scheduled ∷ k.moves)
                (backoff ∷ later.written) f
                (ap (λ l. l ++ later.written) w
                  ∙ append_assoc e.written (failed ∷ backoff ∷ []) later.written)
                (written backoff_scheduled backoff refl
                  (subst (λ x. Walk x k.moves later.written later.instance_after.state) s k.walk));
        })
  ]

-- The loop over any turns, from an instance whose state the first trigger brings to `spawning`: the states that it writes,
-- and the one that it leaves, are exactly those that `Next` gives one after the other on what has
-- happened in the rounds: the outcomes of the spawn, the handshake and the connection, and after a failure the backoff or
-- the exhausted budget. Only the `stopping` of a shutdown, and the `backoff` of a round that has
-- exhausted the budget, are not written.
pub run_lifecycle-Follows :
    (delay_text : ℕ → String) (first : Trigger) (turns : List Turn) (m : ManagedInstance)
    → next m.state first ≡ moved spawning
    → Follows first turns m (run_lifecycle delay_text turns m)
unfolding run_lifecycle run_round next transitions
run_lifecycle-Follows delay_text first [] m begins = record {
  moves = [];
  observed = no_turn;
  walk = no_move;
}
run_lifecycle-Follows delay_text first (t ∷ rest) m begins =
    of_round t.round (λ e k. run_lifecycle-Follows delay_text backoff_elapsed rest e k)
  where
    turn_of : Round → Turn
    turn_of round = record { round = round; now = t.now; cancelled = t.cancelled }

    later : Effect × Bool → Effect
    later r = run_lifecycle delay_text rest r.0.instance_after

    again : (s : State) → s ≡ backoff → next s backoff_elapsed ≡ moved spawning
    again s e = rw e refl

    of_failed :
        (round : Round) (e : Effect)
        → IsFailure round
        → IsFailed first round m e
        → ((m' : ManagedInstance)
            → next m'.state backoff_elapsed ≡ moved spawning
            → Follows backoff_elapsed rest m' (run_lifecycle delay_text rest m'))
        → (let r = fail_round delay_text t.now t.cancelled e in
            Follows first (turn_of round ∷ rest) m (if r.1 then join r.0 (later r) else r.0))
    of_failed round e failure f ih =
        let r = fail_round delay_text t.now t.cancelled e in
        Follows-failed first (turn_of round) rest m failure e r (later r) f
          (fail_round-IsEnded delay_text t.now t.cancelled e)
          (λ s. ih r.0.instance_after (again r.0.instance_after.state s))

    of_round :
        (round : Round)
        → ((m' : ManagedInstance)
            → next m'.state backoff_elapsed ≡ moved spawning
            → Follows backoff_elapsed rest m' (run_lifecycle delay_text rest m'))
        → Follows first (turn_of round ∷ rest) m (run_lifecycle delay_text (turn_of round ∷ rest) m)
    of_round (no_spawn why) ih =
        of_failed (no_spawn why) (spawn_failed why m) tt (IsFailed-no_spawn first m begins why) ih
    of_round (no_handshake pid why) ih =
        of_failed (no_handshake pid why) (emit "handshake_failed" why (process_started pid m)) tt
          (IsFailed-no_handshake first m begins pid why) ih
    of_round (ran pid version entities probes false) ih =
        let cause =
          if not (run_health m.lifecycle.health_failures_to_restart 0 probes)
          then "health failed"
          else "stream closed" in
        of_failed (ran pid version entities probes false)
          (emit "failed" cause (connection_closed pid version entities m)) refl
          (IsFailed-ran first m begins pid version cause entities probes) ih
    of_round (ran pid version entities probes true) ih = record {
      moves = writes first ∷ moves_of m.lifecycle (ran pid version entities probes true);
      observed = shut_down (λ h. cc);
      walk = stopped-ran first m begins pid version entities probes;
    }
