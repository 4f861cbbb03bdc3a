-- ===== src/Carport/Dispatch.antt =====
-- internal/carport/dispatch.go, and `Router.Resolve` of routing.go: one command, sent to the driver
-- instance that owns its entity. What the registry, the store's appends and the driver's stream
-- answer is the input. Spans and metrics are left out.
pub mod Acks
use gohome.Prelude.{
  String, Bool, true, false, not, ◌&&◌, ◌||◌, List, [], ◌∷◌, ◌++◌, Option, none, some, lookup,
  string_eq, if◌then◌else◌, ◌==◌,
}
use gohome.Carport.Fsm.{running, state_beq}
use gohome.Carport.Supervisor.{ManagedInstance}
use Prim.Native.String.{◌++◌ as text_append}

pub data DispatchError : Type 0 where
  entity_unknown instance_not_running dispatch_timeout context_canceled stream_closed :
      DispatchError
  internal : String → DispatchError

-- the answer of `GetEntity`: the driver instance of the entity, no such entity, or another error
pub data RegistryAnswer : Type 0 where
  owned_by : String → RegistryAnswer
  not_found : RegistryAnswer
  registry_error : String → RegistryAnswer

pub data Outcome {ℓ} (A : Type ℓ) : Type ℓ where
  done : A → Outcome A
  error : DispatchError → Outcome A

unfoldable pub resolve : RegistryAnswer → Outcome String
resolve (owned_by id) = if id == "" then error entity_unknown else done id
resolve not_found = error entity_unknown
resolve (registry_error why) = error (internal why)

pub record CommandResult : Type 0 where
  pub is_ok : Bool
  pub error_message : String

-- how `SendCommand` ends
pub data Sent : Type 0 where
  replied : CommandResult → Sent
  canceled deadline_exceeded closed timed_out : Sent
  broken : String → Sent

pub data Event : Type 0 where
  command_issued : String → String → String → List (String × String) → Event
  command_ack : String → Bool → String → Event

-- the fields of the acknowledgement
unfoldable pub ack_of : Sent → Bool × String
ack_of (replied r) = (r.is_ok, r.error_message)
ack_of canceled = (false, "context canceled")
ack_of deadline_exceeded = (false, "dispatch timeout")
ack_of closed = (false, "driver stream closed")
ack_of timed_out = (false, "dispatch timeout")
ack_of (broken why) = (false, why)

-- the automation and the run that the context names, if it does
abbrev pub source_of : Option (String × String) → String
source_of none = "carport:host"
source_of (some (automation, correlation)) =
    if automation == ""
    then "carport:host"
    else text_append "automation:" (text_append automation (text_append "#" correlation))

-- a command, and the answers that it meets; an append answers `some` with its error
pub record Call : Type 0 where
  pub entity_id : String
  pub capability : String
  pub args : List (String × String)
  pub cause : Option (String × String)
  pub registry : RegistryAnswer
  pub issued_append : Option String
  pub sent : Sent
  pub ack_append : Option String

abbrev pub is_running : Option ManagedInstance → Bool
is_running none = false
is_running (some m) = state_beq m.state running && m.conn

-- the result of the send, its error translated by `mapSendError`
unfoldable pub result_of : Sent → Outcome CommandResult
result_of (replied r) = done r
result_of canceled = error context_canceled
result_of deadline_exceeded = error dispatch_timeout
result_of closed = error stream_closed
result_of timed_out = error dispatch_timeout
result_of (broken why) = error (internal why)

-- from the send on: the acknowledgement is appended whatever the send gave
unfoldable pub finish : Call → List Event → Outcome CommandResult × List Event
unfolding ack_of result_of
finish c log =
    let ack = command_ack c.entity_id (ack_of c.sent).0 (ack_of c.sent).1 in
    (result_of c.sent, elim c.ack_append [ none ↦ log ++ (ack ∷ []) | some why ↦ log ])

unfoldable pub issue : Call → List Event → Outcome CommandResult × List Event
unfolding finish
issue c log = elim c.issued_append [
  | some why ↦ (error (internal why), log)
  | none ↦
      finish c (log ++ (command_issued c.entity_id (source_of c.cause) c.capability c.args ∷ []))
]

unfoldable pub dispatch :
    List (String × ManagedInstance) → Call → List Event → Outcome CommandResult × List Event
unfolding resolve issue
dispatch instances c log = elim (resolve c.registry) [
  | error e ↦ (error e, log)
  | done id ↦
      if not (is_running (lookup id instances))
      then (error instance_not_running, log)
      else issue c log
]
