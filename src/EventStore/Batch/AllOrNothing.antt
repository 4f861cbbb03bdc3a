-- ===== src/EventStore/Batch/AllOrNothing.antt =====
-- `AppendBatch` as a whole: the rows of a batch.
use gohome.Prelude.{
  ℕ, suc, ◌+◌, String, ◌≡◌, refl, sym, ap, ◌∙◌, subst, List, [], ◌∷◌, ◌++◌, Option, none, some,
  arith, length, length-append,
}
use mathlib.Core.List.{append_assoc, append-nil}
use gohome.EventStore.Event.{Event}
use gohome.EventStore.Projector.{ProjectorReg, AllSync, IsShown, IsBuilding, Operations, Laws}
use gohome.EventStore.Store.{
  StoreError, Faults, Attempt, Store, Ambient, filled, at_position, at_most, apply_sync,
}
use gohome.EventStore.Store.Apply.{
  AllCurrent, AllBuilding-AllShown, IsApplied, apply_sync-IsApplied,
}
use gohome.EventStore.Store.Outcome.{
  IsNumbered, IsNumbered-append, IsConsistent, Outcome, roll_back-IsKept, commit_tx-Outcome,
  with_retry-Outcome,
}
use gohome.EventStore.Store.Appends.{AllCurrent-IsKept}
use gohome.EventStore.Batch.{
  Inserted, refuses, apply_then, insert_then, insert_all, finish_batch, batch_failure, start_batch,
  append_batch_tx, Batched, appended, batch_failed, new_positions, batch_result, append_batch,
}

-- the rows that a batch gets after the position `last`
abbrev pub rows_of : {P : Type 0} → List (Ambient × Event P) → ℕ → List (Event P)
rows_of [] last = []
rows_of ((a, e) ∷ rest) last = at_position (last + 1) (filled a e) ∷ rows_of rest (last + 1)

rows_of-IsNumbered :
    {P : Type 0} (events : List (Ambient × Event P)) (last : ℕ)
    → IsNumbered (last + 1) (rows_of events last)
rows_of-IsNumbered [] last = tt
rows_of-IsNumbered ((a, e) ∷ rest) last = (
  refl,
  let e : last + 1 + 1 ≡ suc (last + 1) = omega arith in
      subst (λ n. IsNumbered n (rows_of rest (last + 1))) e (rows_of-IsNumbered rest (last + 1)),
)

-- the positions that follow `last`, one for each event
abbrev pub counted : {P : Type 0} → ℕ → List (Ambient × Event P) → List ℕ
counted last [] = []
counted last (e ∷ rest) = (last + 1) ∷ counted (last + 1) rest

new_positions-append :
    {P : Type 0} (before rows : List (Event P))
    → new_positions before (before ++ rows) ≡ new_positions [] rows
new_positions-append [] rows = refl
new_positions-append (x ∷ before) rows = new_positions-append before rows

new_positions-rows_of :
    {P : Type 0} (events : List (Ambient × Event P)) (last : ℕ)
    → new_positions [] (rows_of events last) ≡ counted last events
new_positions-rows_of [] last = refl
new_positions-rows_of ((a, e) ∷ rest) last =
    ap (λ l. (last + 1) ∷ l) (new_positions-rows_of rest (last + 1))

module _ {P S : Type 0} (V : Type 0) (Meant : (o : Operations P S) → Laws P S V o → Type 0) where
  -- what the loop has made of the projectors, and its rows where no error ended it
  record IsInserted (log es rows : List (Event P)) (i : Inserted P S) : Type 0 where
    shown : AllSync (IsShown V Meant log) i.regs
    built :
        i.failure ≡ none → (i.rows ≡ rows) × AllSync (IsBuilding V Meant log (es ++ rows)) i.regs

  insert_all-IsInserted :
      (f : Faults) (events : List (Ambient × Event P)) (last : ℕ) (log es : List (Event P))
      (regs : List (ProjectorReg P S))
      → AllSync (IsBuilding V Meant log es) regs
      → IsInserted log es (rows_of events last) (insert_all f events last regs)
  unfolding insert_all
  insert_all-IsInserted f [] last log es regs h = record {
    shown = AllBuilding-AllShown V Meant log es regs h;
    built = λ ok. (refl, rw (append-nil es) h);
  }
  insert_all-IsInserted f ((a, e) ∷ rest) last log es regs h =
      let placed = at_position (last + 1) (filled a e) in
      of_refusal (refuses f (last + 1) a e) (
        of_applied (apply_sync (λ name. none) placed regs)
          (apply_sync-IsApplied V Meant log (λ name. none) es placed regs h)
          (λ next g. insert_all-IsInserted f rest (last + 1) log (es ++ (placed ∷ [])) next g))
    where
      of_applied :
          (r : List (ProjectorReg P S) × Option StoreError)
          → IsApplied V Meant log es (at_position (last + 1) (filled a e)) r
          → ((next : List (ProjectorReg P S))
              → AllSync
                  (IsBuilding V Meant log (es ++ (at_position (last + 1) (filled a e) ∷ [])))
                  next
              → IsInserted log
                  (es ++ (at_position (last + 1) (filled a e) ∷ []))
                  (rows_of rest (last + 1))
                  (insert_all f rest (last + 1) next))
          → IsInserted log es
              (rows_of ((a, e) ∷ rest) last)
              (apply_then (at_position (last + 1) (filled a e)) r (insert_all f rest (last + 1)))
      of_applied (next, some err) g ih = record { shown = g.shown; built = λ ok. cc }
      of_applied (next, none) g ih =
          let later = ih next (g.built refl) in
          record {
            shown = later.shown;
            built = λ ok. (
              ap (λ l. at_position (last + 1) (filled a e) ∷ l) (later.built ok).0,
              rw
                  (← append_assoc es (at_position (last + 1) (filled a e) ∷ [])
                    (rows_of rest (last + 1)))
                  ((later.built ok).1),
            );
          }

      of_refusal :
          (r : Option StoreError)
          → (let i =
                apply_then
                  (at_position (last + 1) (filled a e))
                  (apply_sync (λ name. none) (at_position (last + 1) (filled a e)) regs)
                  (insert_all f rest (last + 1)) in
              IsInserted log es (rows_of ((a, e) ∷ rest) last) i)
          → IsInserted log es (rows_of ((a, e) ∷ rest) last) (
              insert_then r regs (
                apply_then
                  (at_position (last + 1) (filled a e))
                  (apply_sync (λ name. none) (at_position (last + 1) (filled a e)) regs)
                  (insert_all f rest (last + 1))))
      of_refusal (some err) g = record {
        shown = AllBuilding-AllShown V Meant log es regs h;
        built = λ ok. cc;
      }
      of_refusal none g = g

  append_batch_tx-Outcome :
      (events : List (Ambient × Event P)) (f : Faults) (s : Store P S)
      → AllCurrent V Meant s.log s.projectors
      → Outcome V Meant (rows_of events s.last_id) s (append_batch_tx events f s)
  unfolding append_batch_tx
  append_batch_tx-Outcome events f s c =
      of_begin f.begin (insert_all f events s.last_id s.projectors)
        (insert_all-IsInserted f events s.last_id s.log [] s.projectors c)
    where
      of_failure :
          (failure : Option StoreError) (i : Inserted P S)
          → AllSync (IsShown V Meant s.log) i.regs
          → (failure ≡ none
              → (i.rows ≡ rows_of events s.last_id)
                × AllSync (IsBuilding V Meant s.log (rows_of events s.last_id)) i.regs)
          → Outcome V Meant (rows_of events s.last_id) s (finish_batch f failure i s)
      of_failure (some err) i shown built = roll_back-IsKept V Meant err i.regs s shown
      of_failure none i shown built =
          let whole = built refl in
          rw (← whole.0) (
            commit_tx-Outcome V Meant f.commit i.rows (s.last_id + length i.rows) i.regs s refl
              shown (rw (whole.0) (whole.1)))

      no_failure :
          (failure : Option StoreError) (regs : List (ProjectorReg P S))
          → batch_failure f failure regs ≡ none
          → failure ≡ none
      no_failure (some err) regs h = cc
      no_failure none regs h = refl

      of_begin :
          (begin : Option String) (i : Inserted P S)
          → IsInserted s.log [] (rows_of events s.last_id) i
          → Outcome V Meant (rows_of events s.last_id) s (start_batch begin f i s)
      of_begin (some why) i h = AllCurrent-IsKept V Meant s c
      of_begin none i h =
          of_failure (batch_failure f i.failure i.regs) i h.shown
            (λ ok. h.built (no_failure i.failure i.regs ok))

  -- the outcome of a call: all the rows stand at the end of the log and their positions are
  -- returned, or nothing has changed
  abbrev pub IsBatched : List (Ambient × Event P) → Store P S → Store P S × Batched → Type 0
  IsBatched events s (s', appended positions) =
      (s'.log ≡ s.log ++ rows_of events (length s.log))
      × (positions ≡ counted (length s.log) events)
  IsBatched events s (s', batch_failed err) = s'.log ≡ s.log

  batch_result-lem :
      (events : List (Ambient × Event P)) (s : Store P S) (r : Store P S × Option StoreError)
      → IsConsistent V Meant s
      → Outcome V Meant (rows_of events s.last_id) s r
      → IsConsistent V Meant (batch_result s.log r).0 × IsBatched events s (batch_result s.log r)
  batch_result-lem events s (s', some err) c o = (
    record {
      numbered = rw (o.log) (c.numbered);
      last = rw (o.log) (o.last ∙ c.last);
      latest = rw (o.log) (o.latest ∙ c.latest);
      current = rw (o.log) (o.current);
    },
    o.log,
  )
  batch_result-lem events s (s', none) c o =
      let rows = rows_of events s.last_id in
      let total : s'.last_id ≡ length s'.log =
        o.last
        ∙ ap (λ n. n + length rows) c.last
        ∙ sym (ap length o.log ∙ length-append s.log rows) in
      (
        record {
          numbered = rw (o.log) (
              IsNumbered-append 1 (s.last_id + 1) s.log rows c.numbered
                (rows_of-IsNumbered events s.last_id) (ap (λ n. n + 1) c.last ∙ omega arith));
          last = total;
          latest = total;
          current = rw (o.log) (o.current);
        },
        (
          o.log ∙ ap (λ n. s.log ++ rows_of events n) c.last,
          ap (new_positions s.log) o.log
              ∙ new_positions-append s.log rows
              ∙ new_positions-rows_of events s.last_id
              ∙ ap (λ n. counted n events) c.last,
        ),
      )

  -- A call of `AppendBatch`, whatever the database answers in its attempts, keeps the store
  -- consistent. Without an error all the events of the batch, with their timestamps and
  -- correlation ids filled in, stand at the end of the log in their order, at the positions that
  -- follow, and these positions are returned; with an error, be it at the last event, the log is
  -- what it was.
  pub append_batch-IsConsistent :
      (first : Attempt) (rest : List Attempt) (events : List (Ambient × Event P)) (s : Store P S)
      → IsConsistent V Meant s
      → IsConsistent V Meant (append_batch first rest events s).0
        × IsBatched events s (append_batch first rest events s)
  unfolding append_batch
  append_batch-IsConsistent first rest [] s c = (c, (sym (append-nil s.log), refl))
  append_batch-IsConsistent first rest (e ∷ events) s c = batch_result-lem (e ∷ events) s _ c (
      with_retry-Outcome V Meant (rows_of (e ∷ events)) (append_batch_tx (e ∷ events))
        (append_batch_tx-Outcome (e ∷ events)) first (at_most 4 rest) s c.current)
