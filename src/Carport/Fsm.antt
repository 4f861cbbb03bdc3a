-- ===== src/Carport/Fsm.antt =====
-- internal/carport/fsm.go
pub mod Paths
use gohome.Prelude.{
  ℕ, ◌≡◌, refl, sym, ap, ◌∙◌, nat_eq, ◌↔◌, String, Bool, true, false, ◌&&◌, List, [], ◌∷◌, Option,
  none, some, arith, Eq, eqb, eqb_iff, lookup,
}

pub data State : Type 0 where
  declared spawning awaiting_handshake running failed backoff quarantined stopping stopped : State

pub data Trigger : Type 0 where
  start spawned spawn_error handshake_ok handshake_fail crash health_fail stream_error : Trigger
  backoff_scheduled backoff_elapsed budget_exhausted manual_restart shutdown exited : Trigger

-- the values of `iota`
abbrev pub state_index : State → ℕ
state_index declared = 0
state_index spawning = 1
state_index awaiting_handshake = 2
state_index running = 3
state_index failed = 4
state_index backoff = 5
state_index quarantined = 6
state_index stopping = 7
state_index stopped = 8

abbrev pub trigger_index : Trigger → ℕ
trigger_index start = 0
trigger_index spawned = 1
trigger_index spawn_error = 2
trigger_index handshake_ok = 3
trigger_index handshake_fail = 4
trigger_index crash = 5
trigger_index health_fail = 6
trigger_index stream_error = 7
trigger_index backoff_scheduled = 8
trigger_index backoff_elapsed = 9
trigger_index budget_exhausted = 10
trigger_index manual_restart = 11
trigger_index shutdown = 12
trigger_index exited = 13

abbrev pub state_beq : State → State → Bool
state_beq a b = eqb (state_index a) (state_index b)

abbrev pub trigger_beq : Trigger → Trigger → Bool
trigger_beq a b = eqb (trigger_index a) (trigger_index b)

-- the inverse of the numbering, to compare by it
abbrev state_at : ℕ → State
state_at n =
    elim (lookup n (
      (0, declared)
      ∷ (1, spawning)
      ∷ (2, awaiting_handshake)
      ∷ (3, running)
      ∷ (4, failed)
      ∷ (5, backoff)
      ∷ (6, quarantined)
      ∷ (7, stopping)
      ∷ (8, stopped)
      ∷ [])) [ none ↦ declared | some s ↦ s ]

state_at-index : (s : State) → state_at (state_index s) ≡ s
state_at-index declared = refl
state_at-index _ = refl

abbrev trigger_at : ℕ → Trigger
trigger_at n =
    elim (lookup n (
      (0, start)
      ∷ (1, spawned)
      ∷ (2, spawn_error)
      ∷ (3, handshake_ok)
      ∷ (4, handshake_fail)
      ∷ (5, crash)
      ∷ (6, health_fail)
      ∷ (7, stream_error)
      ∷ (8, backoff_scheduled)
      ∷ (9, backoff_elapsed)
      ∷ (10, budget_exhausted)
      ∷ (11, manual_restart)
      ∷ (12, shutdown)
      ∷ (13, exited)
      ∷ [])) [ none ↦ start | some t ↦ t ]

trigger_at-index : (t : Trigger) → trigger_at (trigger_index t) ≡ t
trigger_at-index start = refl
trigger_at-index _ = refl

pub state_beq_iff : (a b : State) → (state_beq a b ≡ true) ↔ (a ≡ b)
state_beq_iff a b = (
  λ h.
      sym (state_at-index a)
      ∙ ap state_at ((eqb_iff (state_index a) (state_index b)).0 h)
      ∙ state_at-index b,
  λ e. (eqb_iff (state_index a) (state_index b)).1 (ap state_index e),
)

pub trigger_beq_iff : (a b : Trigger) → (trigger_beq a b ≡ true) ↔ (a ≡ b)
trigger_beq_iff a b = (
  λ h.
      sym (trigger_at-index a)
      ∙ ap trigger_at ((eqb_iff (trigger_index a) (trigger_index b)).0 h)
      ∙ trigger_at-index b,
  λ e. (eqb_iff (trigger_index a) (trigger_index b)).1 (ap trigger_index e),
)

instance abbrev pub state_eq : Eq State
state_eq = record { beq = state_beq; beq_iff = state_beq_iff }

instance abbrev pub trigger_eq : Eq Trigger
trigger_eq = record { beq = trigger_beq; beq_iff = trigger_beq_iff }

-- `State.String`
unfoldable pub state_string : State → String
state_string declared = "declared"
state_string spawning = "spawning"
state_string awaiting_handshake = "awaiting_handshake"
state_string running = "running"
state_string failed = "failed"
state_string backoff = "backoff"
state_string quarantined = "quarantined"
state_string stopping = "stopping"
state_string stopped = "stopped"

unfoldable pub transitions : List (State × List (Trigger × State))
transitions =
    (declared, (start, spawning) ∷ [])
    ∷ (spawning, (spawned, awaiting_handshake) ∷ (spawn_error, failed) ∷ (shutdown, stopping) ∷ [])
    ∷ (
      awaiting_handshake,
      (handshake_ok, running) ∷ (handshake_fail, failed) ∷ (shutdown, stopping) ∷ [],
    )
    ∷ (
      running,
      (crash, failed) ∷ (health_fail, failed) ∷ (stream_error, failed) ∷ (shutdown, stopping) ∷ [],
    )
    ∷ (failed, (backoff_scheduled, backoff) ∷ (shutdown, stopping) ∷ [])
    ∷ (
      backoff,
      (backoff_elapsed, spawning) ∷ (budget_exhausted, quarantined) ∷ (shutdown, stopping) ∷ [],
    )
    ∷ (quarantined, (manual_restart, spawning) ∷ (shutdown, stopping) ∷ [])
    ∷ (stopping, (exited, stopped) ∷ [])
    ∷ []

unfoldable pub is_legal : State → Trigger → State → Bool
is_legal from trigger to = elim (lookup from transitions) [
  | none ↦ false
  | some m ↦ elim (lookup trigger m) [ none ↦ false | some got ↦ state_beq got to ]
]

pub data NextError : Type 0 where
  no_transitions : State → NextError
  illegal_trigger : Trigger → State → NextError

pub data NextResult : Type 0 where
  moved : State → NextResult
  refused : NextError → NextResult

unfoldable pub next : State → Trigger → NextResult
next from trigger = elim (lookup from transitions) [
  | none ↦ refused (no_transitions from)
  | some m ↦ elim (lookup trigger m) [
    | none ↦ refused (illegal_trigger trigger from)
    | some to ↦ moved to
  ]
]
