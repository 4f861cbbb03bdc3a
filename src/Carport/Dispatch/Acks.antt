-- ===== src/Carport/Dispatch/Acks.antt =====
-- INV-1 of the dispatcher: an issued command is acknowledged.
use gohome.Prelude.{
  String, ◌≡◌, Bool, true, false, ◌&&◌, List, [], ◌∷◌, ◌++◌, none, some, arith, lookup, string_eq,
}
use gohome.Carport.Supervisor.{ManagedInstance}
use gohome.Carport.Dispatch.{
  Outcome, done, error, CommandResult, Event, command_issued, command_ack, Call, is_running,
  resolve, ack_of, source_of, dispatch,
}

-- the entity has an owner that runs with a connection, and the first append succeeds
abbrev pub is_accepted : List (String × ManagedInstance) → Call → Bool
is_accepted instances c =
    elim (resolve c.registry) [ error e ↦ false | done id ↦ is_running (lookup id instances) ]
    && elim c.issued_append [ none ↦ true | some why ↦ false ]

abbrev pub is_success : Outcome CommandResult → Bool
is_success (done r) = r.is_ok
is_success (error e) = false

-- If a command is accepted and its last append succeeds, exactly its issue and one acknowledgement
-- are appended, in this order, and the acknowledgement tells whether the caller gets a successful
-- result, however the send ends.
pub dispatch-acks :
    (instances : List (String × ManagedInstance)) (c : Call) (log : List Event)
    → is_accepted instances c ≡ true
    → c.ack_append ≡ none
    → (dispatch instances c log).1
      ≡ (log ++ (command_issued c.entity_id (source_of c.cause) c.capability c.args ∷ []))
        ++ (command_ack c.entity_id (is_success (dispatch instances c log).0) (ack_of c.sent).1
            ∷ [])
unfolding dispatch ack_of
dispatch-acks instances c log h last = ground arith

abbrev pub is_error : Outcome CommandResult → Bool
is_error (done r) = false
is_error (error e) = true

-- A command whose entity has no owner, whose owner does not run, or whose first append fails,
-- appends nothing and gives an error.
pub dispatch-refused :
    (instances : List (String × ManagedInstance)) (c : Call) (log : List Event)
    → is_accepted instances c ≡ false
    → ((dispatch instances c log).1 ≡ log) × (is_error (dispatch instances c log).0 ≡ true)
unfolding dispatch
dispatch-refused instances c log h = ground arith
