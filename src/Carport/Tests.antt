-- ===== src/Carport/Tests.antt =====
-- Runs of internal/carport on small inputs, and the theorems at such inputs.
use gohome.Prelude.{ℕ, String, ◌≡◌, refl, ◌↔◌, true, false, List, [], ◌∷◌, none, some, arith}
use Prim.Native.Nat.{min}
use gohome.Carport.Fsm.{
  State, declared, spawning, awaiting_handshake, running, failed, backoff, quarantined, stopped,
  start, crash, is_legal, transitions, next, moved,
}
use gohome.Carport.Fsm.Paths.{next-is_legal}
use gohome.Carport.Supervisor.{
  LifecycleConfig, ManagedInstance, Round, no_spawn, ran, Turn, backoff_delay, run_round,
  run_lifecycle,
}
use gohome.Carport.Supervisor.Budget.{HasBudget, backoff_delay-min, run_round-HasBudget}
use gohome.Carport.Supervisor.Conforms.{Follows, run_lifecycle-Follows}
use gohome.Carport.Dispatch.{
  Call, owned_by, timed_out, command_issued, command_ack, ack_of, source_of, dispatch, resolve,
}
use gohome.Carport.Dispatch.Acks.{is_success, is_error, dispatch-acks, dispatch-refused}

next-is_legal_example : (next running crash ≡ moved failed) ↔ (is_legal running crash failed ≡ true)
next-is_legal_example = next-is_legal running failed crash

-- three restarts in ten minutes, from one second up to a minute
abbrev limits : LifecycleConfig
limits = record {
  health_failures_to_restart = 2;
  restart_backoff_initial = 1000;
  restart_backoff_max = 60000;
  restart_budget_window = 600000;
  restart_budget_max = 3;
}

delay_run : backoff_delay limits 3 ≡ 4000
unfolding backoff_delay
delay_run = refl

delay_capped : backoff_delay limits 9 ≡ 60000
unfolding backoff_delay
delay_capped = refl

backoff_delay-min_example : backoff_delay limits 3 ≡ min 4000 60000
backoff_delay-min_example = backoff_delay-min limits 3 (omega arith) (omega arith)

abbrev bridge : State → List ℕ → ManagedInstance
bridge s history = record {
  id = "hue-1";
  lifecycle = limits;
  state = s;
  conn = false;
  restart_history = history;
}

abbrev no_text : ℕ → String
no_text n = ""

abbrev unhealthy : Round
unhealthy = ran "41" "1.0" (("light.hall", "") ∷ []) (true ∷ false ∷ false ∷ []) false

exhausted_run :
    (run_round no_text 900000 false unhealthy
      (bridge backoff (500000 ∷ 600000 ∷ 700000 ∷ []))).0.instance_after.state
    ≡ quarantined
unfolding run_round
exhausted_run = refl

run_round-HasBudget_example :
    HasBudget
      (bridge backoff (100000 ∷ 600000 ∷ []))
      900000
      false
      (run_round no_text 900000 false unhealthy (bridge backoff (100000 ∷ 600000 ∷ [])))
run_round-HasBudget_example =
    run_round-HasBudget no_text 900000 false unhealthy (bridge backoff (100000 ∷ 600000 ∷ [])) refl

abbrev two_turns : List Turn
two_turns =
    record { round = no_spawn "missing"; now = 1000; cancelled = false }
    ∷ record { round = ran "42" "1.0" [] (true ∷ []) true; now = 2000; cancelled = false }
    ∷ []

written_run :
    (run_lifecycle no_text two_turns (bridge declared [])).written
    ≡ spawning ∷ failed ∷ backoff ∷ spawning ∷ awaiting_handshake ∷ running ∷ stopped ∷ []
unfolding run_lifecycle
written_run = refl

run_lifecycle-Follows_example :
    Follows start two_turns
      (bridge declared [])
      (run_lifecycle no_text two_turns (bridge declared []))
unfolding next transitions
run_lifecycle-Follows_example =
    run_lifecycle-Follows no_text start two_turns (bridge declared []) refl

abbrev hue : List (String × ManagedInstance)
hue = ("hue-1", record (bridge running []) { conn = true }) ∷ []

abbrev turn_on : Call
turn_on = record {
  entity_id = "light.hall";
  capability = "turn_on";
  args = [];
  cause = some ("dusk", "7");
  registry = owned_by "hue-1";
  issued_append = none;
  sent = timed_out;
  ack_append = none;
}

dispatch-acks_example :
    (dispatch hue turn_on []).1
    ≡ command_issued "light.hall" (source_of turn_on.cause) "turn_on" []
      ∷ command_ack "light.hall" (is_success (dispatch hue turn_on []).0) "dispatch timeout"
      ∷ []
unfolding dispatch resolve ack_of
dispatch-acks_example = dispatch-acks hue turn_on [] refl refl

dispatch-refused_example :
    ((dispatch [] turn_on []).1 ≡ []) × (is_error (dispatch [] turn_on []).0 ≡ true)
unfolding resolve
dispatch-refused_example = dispatch-refused [] turn_on [] refl
