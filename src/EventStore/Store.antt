-- ===== src/EventStore/Store.antt =====
-- internal/eventstore/store.go. The database is the committed rows of `events`, in the order of
-- their positions, with the last id that AUTOINCREMENT gave, and the rows of `projection_cursors`;
-- a transaction that does not commit leaves them as they are. What the database answers, the clock,
-- the new UUID and the encoding of a payload are arguments; metrics and spans are left out.
pub mod Apply
pub mod Outcome
pub mod Appends
use gohome.Prelude.{
  ℕ, zero, suc, ◌+◌, String, Bool, true, false, not, ◌||◌, List, [], ◌∷◌, ◌++◌, Option, none, some,
  ltb, lookup, insert, length, string_eq, has_prefix, ◌==◌, if◌then◌else◌,
}
use Prim.Native.String.{◌++◌ as text_append}
use gohome.EventStore.Event.{Event}
use gohome.EventStore.Projector.{Operations, ProjectorReg}

pub data StoreError : Type 0 where
  kind_required source_required payload_required invalid_event canceled already_started : StoreError
  marshal_failed database : String → StoreError
  projector_failed : String → String → StoreError

-- `err.Error()`, as far as the test for a busy database reads it
abbrev error_text : StoreError → String
error_text (marshal_failed why) = text_append "marshal payload: " why
error_text (database why) = why
error_text (projector_failed name why) =
    text_append "projector " (text_append name (text_append ": " why))
error_text _ = ""

-- `strings.Contains`
unfoldable pub contains_text : String → String → Bool
contains_text String.[] sub = sub == ""
contains_text (String.◌∷◌ c s) sub = has_prefix (String.◌∷◌ c s) sub || contains_text s sub

unfoldable pub is_sqlite_busy : StoreError → Bool
unfolding contains_text
is_sqlite_busy err =
    let msg = error_text err in
    contains_text msg "SQLITE_BUSY"
    || contains_text msg "database is locked"
    || contains_text msg "(5)"

-- The statements of one transaction that fail, with the message; that of an insert by the position
-- that the row would get.
pub record Faults : Type 0 where
  pub begin : Option String
  pub insert_event : ℕ → Option String
  pub advance_cursor : String → Option String
  pub commit : Option String

-- One attempt of `withRetry`, and whether the context ends during the wait after it.
pub record Attempt : Type 0 where
  pub faults : Faults
  pub canceled_after : Bool

pub record Store (P S : Type 0) : Type 0 where
  pub log : List (Event P)
  pub last_id : ℕ
  pub cursors : List (String × ℕ)
  pub latest_position : ℕ
  pub projectors : List (ProjectorReg P S)
  pub started : Bool

-- what a call of the clock, of `uuid.New` and of `proto.Marshal` gives
pub record Ambient : Type 0 where
  pub now : ℕ
  pub new_id : String
  pub marshal : Option String

-- `Append` fills in the timestamp and the correlation id where they are missing
abbrev pub filled : {P : Type 0} → Ambient → Event P → Event P
filled a e = record e {
  timestamp = elim e.timestamp [ none ↦ some a.now | some t ↦ some t ];
  correlation_id = elim e.correlation_id [ none ↦ some a.new_id | some u ↦ some u ];
}

abbrev pub at_position : {P : Type 0} → ℕ → Event P → Event P
at_position pos e = record e { position = pos }

pub data Appended : Type 0 where
  at : ℕ → Appended
  append_failed : StoreError → Appended

-- `withRetry` makes five attempts, four after the first
abbrev pub at_most : ℕ → List Attempt → List Attempt
at_most zero l = []
at_most (suc n) [] = []
at_most (suc n) (a ∷ l) = a ∷ at_most n l

-- the tests of `Append`, in its order, on the payload and its encoding
abbrev pub append_refusal : {P : Type 0} → Option P → Option String → Event P → Option StoreError
append_refusal payload encoding e =
    if e.kind == ""
    then some kind_required
    else if e.source == ""
    then some source_required
    else elim payload [
      | none ↦ some payload_required
      | some p ↦ elim encoding [ some why ↦ some (marshal_failed why) | none ↦ none ]
    ]

module _ {P S : Type 0} where
  -- after an attempt that is not the last, `again` is what the next one gives
  abbrev pub retried :
      Bool
      → Store P S × Option StoreError
      → Store P S × Option StoreError
      → Store P S × Option StoreError
  retried canceled_after (s, none) again = (s, none)
  retried canceled_after (s, some err) again =
      if not (is_sqlite_busy err)
      then (s, some err)
      else if canceled_after
      then (s, some canceled)
      else again

  abbrev pub with_state : S → ProjectorReg P S → ProjectorReg P S
  with_state s r = record {
    name = r.name;
    is_sync = r.is_sync;
    operations = r.operations;
    state = s;
  }

  unfoldable pub register_projector : ProjectorReg P S → Store P S → Store P S × Option StoreError
  register_projector r s =
      if s.started
      then (s, some already_started)
      else (record s { projectors = s.projectors ++ (r ∷ []) }, none)

  abbrev pub promote_all : List (ProjectorReg P S) → List (ProjectorReg P S)
  promote_all [] = []
  promote_all (r ∷ rest) = with_state (r.operations.promote r.state) r ∷ promote_all rest

  abbrev pub discard_all : List (ProjectorReg P S) → List (ProjectorReg P S)
  discard_all [] = []
  discard_all (r ∷ rest) = with_state (r.operations.discard r.state) r ∷ discard_all rest

  -- the body of the loop over the projectors: is it synchronous, what `Apply` gives, its message, whether its row
  -- of `projection_cursors` fails, and what the rest of the loop would do
  abbrev pub apply_one :
      Bool
      → Option S
      → String
      → Option String
      → ProjectorReg P S
      → List (ProjectorReg P S)
      → List (ProjectorReg P S) × Option StoreError
      → List (ProjectorReg P S) × Option StoreError
  apply_one false state err cursor r rest later = (r ∷ later.0, later.1)
  apply_one true none err cursor r rest later = (r ∷ rest, some (projector_failed r.name err))
  apply_one true (some state) err (some why) r rest later =
      (with_state state r ∷ rest, some (database why))
  apply_one true (some state) err none r rest later = (with_state state r ∷ later.0, later.1)

  -- the loop over the projectors: their states, and the error that ended it
  unfoldable pub apply_sync :
      (String → Option String)
      → Event P
      → List (ProjectorReg P S)
      → List (ProjectorReg P S) × Option StoreError
  apply_sync cursor e [] = ([], none)
  apply_sync cursor e (r ∷ rest) =
      apply_one r.is_sync (r.operations.apply e r.state) (r.operations.apply_error e r.state)
        (cursor r.name) r rest (apply_sync cursor e rest)

  abbrev pub advance_cursors : ℕ → List (ProjectorReg P S) → List (String × ℕ) → List (String × ℕ)
  advance_cursors pos [] cursors = cursors
  advance_cursors pos (r ∷ rest) cursors =
      advance_cursors pos rest (if r.is_sync then insert r.name pos cursors else cursors)

  -- a transaction that is rolled back: the deferred function discards
  abbrev pub roll_back :
      StoreError → List (ProjectorReg P S) → Store P S → Store P S × Option StoreError
  roll_back err regs s = (record s { projectors = discard_all regs }, some err)

  -- the end of a transaction that has inserted the events `es`
  abbrev pub commit_tx :
      Option String
      → List (Event P)
      → ℕ
      → List (ProjectorReg P S)
      → Store P S
      → Store P S × Option StoreError
  commit_tx (some why) es last regs s = roll_back (database why) regs s
  commit_tx none es last regs s = (
    record s {
      log = s.log ++ es;
      last_id = last;
      cursors = advance_cursors last regs s.cursors;
      projectors = promote_all regs;
    },
    none,
  )

  abbrev pub after_apply :
      Faults
      → Event P
      → Store P S
      → List (ProjectorReg P S) × Option StoreError
      → Store P S × Option StoreError
  after_apply f e s (regs, some err) = roll_back err regs s
  after_apply f e s (regs, none) = commit_tx f.commit (e ∷ []) e.position regs s

  -- with what `BEGIN` and the insert give
  abbrev pub insert_row :
      Option String → Option String → Faults → Event P → Store P S → Store P S × Option StoreError
  insert_row (some why) row f e s = (s, some (database why))
  insert_row none (some why) f e s = roll_back (database why) s.projectors s
  insert_row none none f e s =
      let placed = at_position (s.last_id + 1) e in
      after_apply f placed s (apply_sync f.advance_cursor placed s.projectors)

  unfoldable pub append_tx : Faults → Event P → Store P S → Store P S × Option StoreError
  unfolding apply_sync
  append_tx f e s = insert_row f.begin (f.insert_event (s.last_id + 1)) f e s

  -- The loop of `withRetry`, over what happens in its attempts: one that finds the database busy
  -- is followed by the next, and the error of the last is final.
  unfoldable pub with_retry :
      (Faults → Store P S → Store P S × Option StoreError)
      → Attempt
      → List Attempt
      → Store P S
      → Store P S × Option StoreError
  unfolding is_sqlite_busy
  with_retry fn a [] s = fn a.faults s
  with_retry fn a (a' ∷ rest) s =
      retried a.canceled_after (fn a.faults s) (with_retry fn a' rest (fn a.faults s).0)

  -- `latestPosition` does not go back
  abbrev pub raise_latest : ℕ → Store P S → Store P S
  raise_latest pos s = record s {
    latest_position = if ltb s.latest_position pos then pos else s.latest_position;
  }

  abbrev pub append_tx_of : Event P → Faults → Store P S → Store P S × Option StoreError
  append_tx_of e f s = append_tx f e s

  abbrev pub append_result : Store P S × Option StoreError → Store P S × Appended
  append_result (s, some err) = (s, append_failed err)
  append_result (s, none) = (raise_latest s.last_id s, at s.last_id)

  abbrev pub unless_refused :
      Option StoreError → Store P S → Store P S × Appended → Store P S × Appended
  unless_refused (some err) s r = (s, append_failed err)
  unless_refused none s r = r

  unfoldable pub append :
      Ambient → Attempt → List Attempt → Event P → Store P S → Store P S × Appended
  unfolding with_retry append_tx
  append a first rest e s =
      unless_refused (append_refusal e.payload a.marshal e) s
        (append_result (with_retry (append_tx_of (filled a e)) first (at_most 4 rest) s))
