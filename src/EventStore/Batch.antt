-- ===== src/EventStore/Batch.antt =====
-- `AppendBatch` of internal/eventstore/store.go: several events in one transaction.
pub mod AllOrNothing
use gohome.Prelude.{
  ℕ, ◌+◌, String, Bool, true, false, not, ◌||◌, List, [], ◌∷◌, Option, none, some, length,
  string_eq, ◌==◌, if◌then◌else◌,
}
use gohome.EventStore.Event.{Event}
use gohome.EventStore.Projector.{ProjectorReg}
use gohome.EventStore.Store.{
  StoreError, invalid_event, marshal_failed, database, Faults, Attempt, Store, Ambient, filled,
  at_position, at_most, apply_sync, roll_back, commit_tx, with_retry,
}

-- the loop of `AppendBatch` over the events: the projectors, the rows, and the error that ended it
pub record Inserted (P S : Type 0) : Type 0 where
  pub regs : List (ProjectorReg P S)
  pub rows : List (Event P)
  pub failure : Option StoreError

-- the positions, or the error
pub data Batched : Type 0 where
  appended : List ℕ → Batched
  batch_failed : StoreError → Batched

abbrev pub is_invalid : {P : Type 0} → Event P → Bool
is_invalid e = e.kind == "" || (e.source == "" || elim e.payload [ none ↦ true | some p ↦ false ])

-- what stops an event before the projectors are called
unfoldable pub refuses : {P : Type 0} → Faults → ℕ → Ambient → Event P → Option StoreError
refuses f pos a e = if is_invalid e then some invalid_event else elim a.marshal [
  | some why ↦ some (marshal_failed why)
  | none ↦ elim (f.insert_event pos) [ some why ↦ some (database why) | none ↦ none ]
]

-- the positions of the rows that are new in the log
abbrev pub new_positions : {P : Type 0} → List (Event P) → List (Event P) → List ℕ
new_positions [] [] = []
new_positions [] (e ∷ es) = e.position ∷ new_positions [] es
new_positions (x ∷ before) [] = []
new_positions (x ∷ before) (e ∷ es) = new_positions before es

module _ {P S : Type 0} where
  abbrev pub stop_at : List (ProjectorReg P S) → StoreError → Inserted P S
  stop_at regs err = record { regs = regs; rows = []; failure = some err }

  abbrev pub add_row : Event P → Inserted P S → Inserted P S
  add_row e i = record { regs = i.regs; rows = e ∷ i.rows; failure = i.failure }

  abbrev pub apply_then :
      Event P
      → List (ProjectorReg P S) × Option StoreError
      → (List (ProjectorReg P S) → Inserted P S)
      → Inserted P S
  apply_then e (regs, some err) later = stop_at regs err
  apply_then e (regs, none) later = add_row e (later regs)

  abbrev pub insert_then : Option StoreError → List (ProjectorReg P S) → Inserted P S → Inserted P S
  insert_then (some err) regs i = stop_at regs err
  insert_then none regs i = i

  unfoldable pub insert_all :
      Faults → List (Ambient × Event P) → ℕ → List (ProjectorReg P S) → Inserted P S
  unfolding refuses apply_sync
  insert_all f [] last regs = record { regs = regs; rows = []; failure = none }
  insert_all f ((a, e) ∷ rest) last regs =
      let placed = at_position (last + 1) (filled a e) in
      insert_then (refuses f (last + 1) a e) regs
        (apply_then placed (apply_sync (λ name. none) placed regs) (insert_all f rest (last + 1)))

  -- the loop over the rows of `projection_cursors`
  abbrev pub cursor_fault : (String → Option String) → List (ProjectorReg P S) → Option StoreError
  cursor_fault cursor [] = none
  cursor_fault cursor (r ∷ rest) =
      let later = cursor_fault cursor rest in
      if not r.is_sync
      then later
      else elim (cursor r.name) [ some why ↦ some (database why) | none ↦ later ]

  abbrev pub finish_batch :
      Faults → Option StoreError → Inserted P S → Store P S → Store P S × Option StoreError
  finish_batch f (some err) i s = roll_back err i.regs s
  finish_batch f none i s = commit_tx f.commit i.rows (s.last_id + length i.rows) i.regs s

  -- with the error that ended the loop over the events
  abbrev pub batch_failure :
      Faults → Option StoreError → List (ProjectorReg P S) → Option StoreError
  batch_failure f (some err) regs = some err
  batch_failure f none regs = cursor_fault f.advance_cursor regs

  -- with what `BEGIN` gives
  abbrev pub start_batch :
      Option String → Faults → Inserted P S → Store P S → Store P S × Option StoreError
  start_batch (some why) f i s = (s, some (database why))
  start_batch none f i s = finish_batch f (batch_failure f i.failure i.regs) i s

  unfoldable pub append_batch_tx :
      List (Ambient × Event P) → Faults → Store P S → Store P S × Option StoreError
  unfolding insert_all
  append_batch_tx events f s = start_batch f.begin f (insert_all f events s.last_id s.projectors) s

  -- `latestPosition` is set to the last position, also where it is higher already
  abbrev pub batch_result : List (Event P) → Store P S × Option StoreError → Store P S × Batched
  batch_result before (s, some err) = (s, batch_failed err)
  batch_result before (s, none) =
      (record s { latest_position = s.last_id }, appended (new_positions before s.log))

  unfoldable pub append_batch :
      Attempt → List Attempt → List (Ambient × Event P) → Store P S → Store P S × Batched
  unfolding with_retry append_batch_tx
  append_batch first rest [] s = (s, appended [])
  append_batch first rest (e ∷ events) s =
      batch_result s.log (with_retry (append_batch_tx (e ∷ events)) first (at_most 4 rest) s)
