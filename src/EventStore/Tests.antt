-- ===== src/EventStore/Tests.antt =====
-- Runs of internal/eventstore on small inputs, and the theorems at such inputs.
use gohome.Prelude.{
  ℕ, zero, suc, ◌+◌, keep_if, String, ◌≡◌, ◌≢◌, refl, subst, Bool, true, false, List, [], ◌∷◌, ◌++◌,
  none, some, Memᴰ, arith,
}
use mathlib.Core.List.Memᴰ
use gohome.State.Cache.{Payload, state_changed, Snapshot}
use gohome.EventStore.Event.{Event, Filter, matches, contains_string}
use gohome.EventStore.Projector.{Operations, ProjectorReg, Laws, replayed, AllSync}
use gohome.EventStore.Store.{
  apply_sync, append_tx, with_retry, is_sqlite_busy, contains_text, Faults, Attempt, Store, Ambient,
  at, append_failed, canceled, append,
}
use gohome.EventStore.Store.Outcome.{IsConsistent}
use gohome.EventStore.Store.Appends.{IsAppended, append-IsConsistent}
use gohome.EventStore.Batch.{append_batch}
use gohome.EventStore.Batch.AllOrNothing.{IsBatched, append_batch-IsConsistent}
use gohome.EventStore.Store.{filled}
use gohome.EventStore.Query.{query, select_rows}
use gohome.EventStore.Replay.{ReplayFaults, out_of_fuel, replay}
use gohome.EventStore.Replay.Recovery.{HasSnapshot, IsSnapshot}
use gohome.EventStore.Replay.Rounds.{Finished}
use gohome.EventStore.Replay.Whole.{replay-ends, replay-Finished}
use gohome.EventStore.CacheReads.{
  Call, append_call, run_calls, new_store, cache_projector, IsRead, run_calls-IsRead,
}
use gohome.EventStore.Subscription.{Feed, no_filter, subscribe, catchup_turn, catchup_send}
use gohome.EventStore.Subscription.Steps.{turn, send, Steps, here, next, IsForward}
use gohome.EventStore.Subscription.Delivery.{IsDelivered, Steps-IsDelivered}
use gohome.EventStore.Subscription.Gaps.{catchup_turn-IsMissed}

-- a counter of the events, in one number for the readers and one for the transaction
abbrev Counter : Type 0
Counter = ℕ × ℕ

abbrev counter_operations : Operations String Counter
counter_operations = record {
  apply = λ e c. some (c.0, e.position);
  apply_error = λ e c. "";
  promote = λ c. (c.1, c.1);
  discard = λ c. (c.0, c.0);
  restore = λ c. some ((2, 2), 2);
}

-- the view is the position of the last event
counter_again :
    (es : List (Event String)) (v : ℕ)
    → replayed (λ e n. e.position) es (replayed (λ e n. e.position) es v)
      ≡ replayed (λ e n. e.position) es v
counter_again [] v = refl
counter_again (e ∷ es) v = refl

counter_laws : Laws String Counter ℕ counter_operations
counter_laws = record {
  initial = 0;
  readers = λ c. c.0;
  built = λ c. c.1;
  step = λ e n. e.position;
  apply-built = λ e s s' h. cc;
  apply-readers = λ e s s' h. cc;
  promote-readers = λ s. refl;
  promote-built = λ s. refl;
  discard-readers = λ s. refl;
  discard-built = λ s. refl;
  again = counter_again;
}

abbrev AnyMeant : (o : Operations String Counter) → Laws String Counter ℕ o → Type 0
AnyMeant o l = Unit

abbrev counter : Counter → ProjectorReg String Counter
counter c = record { name = "counter"; is_sync = true; operations = counter_operations; state = c }

abbrev motion : String → Event String
motion entity = record {
  position = 0;
  timestamp = none;
  kind = "motion";
  entity = entity;
  source = "hue";
  correlation_id = none;
  cause_position = 0;
  payload = some "on";
}

abbrev at_noon : Ambient
at_noon = record { now = 12; new_id = "id"; marshal = none }

abbrev works : Faults
works = record {
  begin = none;
  insert_event = λ pos. none;
  advance_cursor = λ name. none;
  commit = none;
}

abbrev busy : Faults
busy = record works { commit = some "SQLITE_BUSY" }

-- a database that is busy at the first attempt
abbrev first_busy : Attempt
first_busy = record { faults = busy; canceled_after = false }

abbrev then_works : List Attempt
then_works = record { faults = works; canceled_after = false } ∷ []

abbrev new_counter : Store String Counter
new_counter = new_store (counter (0, 0) ∷ [])

new_counter-IsConsistent : IsConsistent ℕ AnyMeant new_counter
unfolding counter_laws
new_counter-IsConsistent = record {
  numbered = tt;
  last = refl;
  latest = refl;
  current = (λ s. record { laws = counter_laws; meant = tt; shown = refl; built = refl }, tt);
}

append_run : (append at_noon first_busy then_works (motion "hall") new_counter).1 ≡ at 1
unfolding append append_tx apply_sync with_retry is_sqlite_busy contains_text
append_run = refl

append_canceled_run :
    (append at_noon
      (record { faults = busy; canceled_after = true })
      then_works
      (motion "hall")
      new_counter).1
    ≡ append_failed canceled
unfolding append append_tx apply_sync with_retry is_sqlite_busy contains_text
append_canceled_run = refl

append-IsConsistent_example :
    IsConsistent ℕ AnyMeant (append at_noon first_busy then_works (motion "hall") new_counter).0
    × IsAppended ℕ AnyMeant
        (filled at_noon (motion "hall"))
        new_counter
        (append at_noon first_busy then_works (motion "hall") new_counter)
append-IsConsistent_example =
    append-IsConsistent ℕ AnyMeant at_noon first_busy then_works (motion "hall") new_counter
      new_counter-IsConsistent

abbrev two_motions : List (Ambient × Event String)
two_motions = (at_noon, motion "hall") ∷ (at_noon, motion "porch") ∷ []

append_batch-IsConsistent_example :
    IsConsistent ℕ AnyMeant (append_batch first_busy then_works two_motions new_counter).0
    × IsBatched ℕ AnyMeant two_motions new_counter
        (append_batch first_busy then_works two_motions new_counter)
append_batch-IsConsistent_example =
    append_batch-IsConsistent ℕ AnyMeant first_busy then_works two_motions new_counter
      new_counter-IsConsistent

-- a log of `n` events after a position, none of them about the door
abbrev row : ℕ → String → Event String
row pos entity = record (motion entity) { position = pos }

abbrev three_rows : List (Event String)
three_rows = row 1 "hall" ∷ row 2 "porch" ∷ row 3 "hall" ∷ []

abbrev restarted : Store String Counter
restarted = record {
  log = three_rows;
  last_id = 3;
  cursors = ("counter", 3) ∷ [];
  latest_position = 3;
  projectors = counter (0, 0) ∷ [];
  started = false;
}

abbrev no_faults : ReplayFaults
no_faults = record {
  restore = λ name. none;
  last_position = none;
  select_batch = λ pos. none;
  begin = λ pos. none;
  advance_cursor = λ pos. none;
  commit = λ pos. none;
}

abbrev no_skips : ℕ → String → Bool
no_skips pos name = false

replay-ends_example : replay 3 no_faults no_skips restarted ≢ out_of_fuel
replay-ends_example = replay-ends no_faults no_skips 3 restarted (omega arith)

counter-HasSnapshot : HasSnapshot ℕ AnyMeant three_rows (counter (0, 0))
unfolding counter_laws
counter-HasSnapshot state pos h =
    let s : (2, 2) ≡ state = cc in
    let p : 2 ≡ pos = cc in
    subst (λ x. IsSnapshot ℕ AnyMeant three_rows (counter (0, 0)) x pos) s
      (subst (IsSnapshot ℕ AnyMeant three_rows (counter (0, 0)) (2, 2)) p
        (record { laws = counter_laws; meant = tt; shown = refl; built = refl }))

replay-Finished_example : Finished ℕ AnyMeant three_rows (replay 3 no_faults no_skips restarted)
replay-Finished_example =
    replay-Finished ℕ AnyMeant no_faults no_skips (λ pos name. refl) 3 restarted
      (refl, (refl, (refl, tt))) (omega arith) (λ s. counter-HasSnapshot, tt)

abbrev listener : Feed String
listener = subscribe no_filter 2 1 3 3 three_rows

abbrev first_sent : Feed String
first_sent = catchup_send (row 2 "porch") (row 3 "hall" ∷ []) (catchup_turn 3 listener)

first_sent_steps : Steps listener first_sent
unfolding catchup_turn query matches
first_sent_steps =
    next (next here (turn 3 (omega arith) refl))
      (send (row 2 "porch") (row 3 "hall" ∷ []) refl refl)

first_sent-IsForward : IsForward first_sent_steps
unfolding first_sent_steps
first_sent-IsForward = ((tt, tt), tt)

passes_all : (e : Event String) → matches no_filter e ≡ true
unfolding matches
passes_all e = refl

Steps-IsDelivered_example : IsDelivered 1 first_sent
Steps-IsDelivered_example =
    Steps-IsDelivered 1 no_filter 2 3 3 three_rows first_sent passes_all (refl, (refl, (refl, tt)))
      (omega arith) (omega arith) (omega arith) first_sent_steps first_sent-IsForward

-- a subscriber that has caught up to the second of three rows, with the tailer past the third
abbrev set_back : Feed String
set_back = subscribe no_filter 2 2 3 3 three_rows

-- rows about the hall, then one about the door
abbrev hall_rows : ℕ → ℕ → List (Event String)
hall_rows pos zero = row pos "door" ∷ []
hall_rows pos (suc n) = row pos "hall" ∷ hall_rows (pos + 1) n

abbrev door_filter : Filter
door_filter = record no_filter { entities = "door" ∷ [] }

abbrev door_listener : Feed String
door_listener = subscribe door_filter 4 0 1001 1001 (hall_rows 1 1000)

none_in_chunk : keep_if (matches door_filter) (select_rows 0 1001 1000 (hall_rows 1 1000)) ≡ []
unfolding matches contains_string
none_in_chunk = refl

catchup_turn-IsMissed_example :
    ¬ Memᴰ
      (row 1001 "door")
      ((catchup_turn 1001 door_listener).received ++ (catchup_turn 1001 door_listener).channel)
catchup_turn-IsMissed_example =
    catchup_turn-IsMissed 1001 door_listener (catchup_turn 1001 door_listener) (row 1001 "door")
      refl (omega arith) none_in_chunk (omega arith) Memᴰ.not-nil here

abbrev state_event : String → Event (Payload String)
state_event value = record {
  position = 0;
  timestamp = none;
  kind = "state_changed";
  entity = "light.hall";
  source = "hue";
  correlation_id = none;
  cause_position = 0;
  payload = some (state_changed (some value));
}

-- one call that succeeds after a retry, and one that is canceled
abbrev two_calls : List (Call (Payload String))
two_calls =
    append_call at_noon first_busy then_works (state_event "on")
    ∷ append_call at_noon (record { faults = busy; canceled_after = true }) then_works
        (state_event "off")
    ∷ []

run_calls-IsRead_example :
    (let s =
        run_calls two_calls
          (new_store (cache_projector {A = String} (λ snap. snap) some [] ∷ [])) in
      AllSync (IsRead (λ (snap : Snapshot String). snap) some s.log) s.projectors)
run_calls-IsRead_example = run_calls-IsRead (λ snap. snap) some [] two_calls
