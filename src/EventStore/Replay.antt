-- ===== src/EventStore/Replay.antt =====
-- internal/eventstore/replay.go: the snapshots, then the rows of the log in batches of 1000. What
-- the database answers is an argument. A replay that fails ends the start of the daemon, so that
-- the projectors' states after it are left out. The reads of `skipped_events` are taken to succeed.
pub mod Recovery
pub mod Rounds
pub mod Whole
use gohome.Prelude.{
  ℕ, zero, suc, ◌+◌, String, Bool, true, false, not, List, [], ◌∷◌, Option, none, some, ltb, length,
  is_empty, if◌then◌else◌,
}
use gohome.EventStore.Event.{Event}
use gohome.EventStore.Projector.{Operations, ProjectorReg}
use gohome.EventStore.Store.{Store, with_state, promote_all, advance_cursors}
use gohome.EventStore.Query.{in_range, select_rows}

pub data ReplayFailure : Type 0 where
  already_started : ReplayFailure
  restore_failed : String → ReplayFailure
  database : String → ReplayFailure
  replay_error : ℕ → String → ReplayFailure

-- The statements that fail: the transaction of a projector's `Restore`, the query for the last
-- position, and for the batch after a position its query, `BEGIN`, cursors and `COMMIT`.
pub record ReplayFaults : Type 0 where
  pub restore : String → Option String
  pub last_position : Option String
  pub select_batch : ℕ → Option String
  pub begin : ℕ → Option String
  pub advance_cursor : ℕ → Option String
  pub commit : ℕ → Option String

-- the projectors with their snapshots, and the least position of these; `maxUint64` is none
pub record Restored (P S : Type 0) : Type 0 where
  pub regs : List (ProjectorReg P S)
  pub min_cursor : Option ℕ

pub data Replayed (P S : Type 0) : Type 0 where
  replay_done : Store P S → Replayed P S
  stopped : ReplayFailure → Replayed P S
  out_of_fuel : Replayed P S

pub data Checked (A : Type 0) : Type 0 where
  good : A → Checked A
  failed : ReplayFailure → Checked A

abbrev pub least : ℕ → Option ℕ → Option ℕ
least pos none = some pos
least pos (some min) = if ltb pos min then some pos else some min

abbrev pub fault_then : {A : Type 0} → Option String → Checked A → Checked A
fault_then none next = next
fault_then (some why) next = failed (database why)

-- the position of the last row of a batch
abbrev pub last_position : {P : Type 0} → ℕ → List (Event P) → ℕ
last_position pos [] = pos
last_position pos (e ∷ es) = last_position e.position es

-- `SELECT MAX(position)`, 0 for no row
abbrev pub load_latest_position : {P : Type 0} → List (Event P) → ℕ
load_latest_position [] = 0
load_latest_position (e ∷ es) =
    let rest = load_latest_position es in if ltb e.position rest then rest else e.position

module _ {P S : Type 0} where
  -- with what `Restore` gives for the projector, and what the rest of the loop gives
  abbrev pub restore_one :
      Option (S × ℕ)
      → Option String
      → ProjectorReg P S
      → Checked (Restored P S)
      → Checked (Restored P S)
  restore_one none fault r later = failed (restore_failed r.name)
  restore_one (some (state, pos)) (some why) r later = failed (database why)
  restore_one (some (state, pos)) none r (failed why) = failed why
  restore_one (some (state, pos)) none r (good later) =
      good
        (record { regs = with_state state r ∷ later.regs; min_cursor = least pos later.min_cursor })

  unfoldable pub restore_projectors :
      (String → Option String) → List (ProjectorReg P S) → Checked (Restored P S)
  restore_projectors fault [] = good (record { regs = []; min_cursor = none })
  restore_projectors fault (r ∷ rest) =
      restore_one (r.operations.restore r.state) (fault r.name) r (restore_projectors fault rest)

  abbrev pub keep_going :
      ProjectorReg P S → Checked (List (ProjectorReg P S)) → Checked (List (ProjectorReg P S))
  keep_going r (failed why) = failed why
  keep_going r (good later) = good (r ∷ later)

  -- the body of the loop over the projectors: is it synchronous, is the event skipped for it, what
  -- `Apply` gives, and what the rest of the loop gives
  abbrev pub replay_one :
      Bool
      → Bool
      → Option S
      → ℕ
      → ProjectorReg P S
      → Checked (List (ProjectorReg P S))
      → Checked (List (ProjectorReg P S))
  replay_one false skipped state pos r later = keep_going r later
  replay_one true true state pos r later = keep_going r later
  replay_one true false none pos r later = failed (replay_error pos r.name)
  replay_one true false (some s) pos r later = keep_going (with_state s r) later

  unfoldable pub replay_event :
      (ℕ → String → Bool) → Event P → List (ProjectorReg P S) → Checked (List (ProjectorReg P S))
  replay_event skipped e [] = good []
  replay_event skipped e (r ∷ rest) =
      replay_one r.is_sync (skipped e.position r.name) (r.operations.apply e r.state) e.position r
        (replay_event skipped e rest)

  abbrev pub replay_then :
      Checked (List (ProjectorReg P S))
      → (List (ProjectorReg P S) → Checked (List (ProjectorReg P S)))
      → Checked (List (ProjectorReg P S))
  replay_then (failed why) next = failed why
  replay_then (good regs) next = next regs

  unfoldable pub replay_events :
      (ℕ → String → Bool)
      → List (Event P)
      → List (ProjectorReg P S)
      → Checked (List (ProjectorReg P S))
  unfolding replay_event
  replay_events skipped [] regs = good regs
  replay_events skipped (e ∷ es) regs =
      replay_then (replay_event skipped e regs) (replay_events skipped es)

  abbrev pub finish_batch :
      Option String
      → Option String
      → ℕ
      → Store P S
      → Checked (List (ProjectorReg P S))
      → Checked (Store P S)
  finish_batch cursor commit last s (failed why) = failed why
  finish_batch (some why) commit last s (good regs) = failed (database why)
  finish_batch none (some why) last s (good regs) = failed (database why)
  finish_batch none none last s (good regs) =
      good
        (record s { cursors = advance_cursors last regs s.cursors; projectors = promote_all regs })

  abbrev pub replay_rows :
      ReplayFaults → (ℕ → String → Bool) → ℕ → List (Event P) → Store P S → Checked (Store P S)
  replay_rows f skipped after [] s = good s
  replay_rows f skipped after (e ∷ batch) s = fault_then (f.begin after) (
      finish_batch (f.advance_cursor after) (f.commit after) (last_position 0 (e ∷ batch)) s
        (replay_events skipped (e ∷ batch) s.projectors))

  -- the store after a batch, with the number of its rows
  unfoldable pub replay_batch :
      ReplayFaults → (ℕ → String → Bool) → ℕ → ℕ → Store P S → Checked (Store P S) × ℕ
  unfolding replay_events
  replay_batch f skipped after limit s =
      let batch = select_rows after 0 limit s.log in
      (fault_then (f.select_batch after) (replay_rows f skipped after batch s), length batch)

  -- after a batch: an error, the end of the rows, or the next round
  abbrev pub continue_replay :
      Checked (Store P S) × ℕ → (Store P S → ℕ → Replayed P S) → Replayed P S
  continue_replay (failed why, applied) next = stopped why
  continue_replay (good s, zero) next = replay_done s
  continue_replay (good s, suc applied) next = next s (suc applied)

  unfoldable pub replay_loop :
      ℕ → ReplayFaults → (ℕ → String → Bool) → ℕ → ℕ → Store P S → Replayed P S
  unfolding replay_batch
  replay_loop zero f skipped latest cursor s =
      if ltb cursor latest then out_of_fuel else replay_done s
  replay_loop (suc fuel) f skipped latest cursor s =
      let next =
        continue_replay (replay_batch f skipped cursor 1000 s)
          (λ s' applied. replay_loop fuel f skipped latest (cursor + applied) s') in
      if ltb cursor latest then next else replay_done s

  abbrev pub replay_restored :
      ℕ
      → ReplayFaults
      → (ℕ → String → Bool)
      → Option String
      → Checked (Restored P S)
      → Store P S
      → Replayed P S
  replay_restored fuel f skipped fault (failed why) s = stopped why
  replay_restored fuel f skipped (some why) (good r) s = stopped (database why)
  replay_restored fuel f skipped none (good r) s =
      replay_loop fuel f skipped (load_latest_position s.log)
        (elim r.min_cursor [ none ↦ 0 | some min ↦ min ]) (record s { projectors = r.regs })

  -- The fuel is the number of rounds allowed.
  unfoldable pub replay : ℕ → ReplayFaults → (ℕ → String → Bool) → Store P S → Replayed P S
  unfolding restore_projectors replay_loop
  replay fuel f skipped s =
      if s.started
      then stopped already_started
      else replay_restored fuel f skipped f.last_position
          (restore_projectors f.restore s.projectors) s
