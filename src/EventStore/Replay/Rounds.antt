-- ===== src/EventStore/Replay/Rounds.antt =====
-- The rounds of a replay.
use gohome.Prelude.{
  ℕ, zero, suc, ◌+◌, ◌≤◌, String, ◌≡◌, sym, ap, ◌∙◌, subst, Bool, true, false, List, [], ◌∷◌, ◌++◌,
  Option, none, some, ltb, length, take, drop, take-append-drop, length-append, arith,
}
use mathlib.Core.List.{append_assoc, append-nil}
use gohome.EventStore.Event.{Event}
use gohome.EventStore.Projector.{Operations, ProjectorReg, Laws, replayed, AllSync, IsBuilding}
use gohome.EventStore.Store.{Store, with_state, promote_all}
use gohome.EventStore.Store.Apply.{AllCurrent, AllSync-map}
use gohome.EventStore.Store.Outcome.{IsNumbered}
use gohome.EventStore.Query.{select_rows}
use gohome.EventStore.Query.Ranges.{select_rows-after}
use gohome.EventStore.Replay.{
  ReplayFaults, Replayed, replay_done, stopped, out_of_fuel, Checked, good, failed, fault_then,
  replay_event, replay_then, replay_events, last_position, finish_batch, replay_rows, replay_batch,
  continue_replay, replay_loop,
}
use gohome.EventStore.Replay.Recovery.{IsReplaying, Ensures, replay_event-lem}

ended :
    {P : Type 0} (latest cursor : ℕ) (before : List (Event P))
    → length before ≡ cursor
    → latest ≡ length (before ++ [])
    → ltb cursor latest ≡ false
ended latest cursor before h k = ground (arith, h, k, length-append before [])

module _ {P S : Type 0} (V : Type 0) (Meant : (o : Operations P S) → Laws P S V o → Type 0)
    (log : List (Event P)) where
  promoted-IsReplaying :
      (rest done es : List (Event P)) (r : ProjectorReg P S)
      → IsReplaying V Meant log rest done es r
      → IsReplaying V Meant log rest (done ++ es) [] (with_state (r.operations.promote r.state) r)
  promoted-IsReplaying rest done es r b = record {
    laws = b.laws;
    meant = b.meant;
    start = b.start;
    complete = b.complete;
    shown = b.laws.promote-readers r.state ∙ b.built;
    built =
        b.laws.promote-built r.state
        ∙ b.built
        ∙ ap (λ l. replayed b.laws.step l b.start) (sym (append-nil (done ++ es)));
  }

  promote_all-AllReplaying :
      (rest done es : List (Event P)) (regs : List (ProjectorReg P S))
      → AllSync (IsReplaying V Meant log rest done es) regs
      → AllSync (IsReplaying V Meant log rest (done ++ es) []) (promote_all regs)
  promote_all-AllReplaying rest done es [] h = tt
  promote_all-AllReplaying rest done es (r ∷ more) (h, hs) = (
    λ s. promoted-IsReplaying rest done es r (h s),
    promote_all-AllReplaying rest done es more hs,
  )

  -- a finished replay shows the log
  IsReplaying-IsBuilding :
      (rest : List (Event P)) (r : ProjectorReg P S)
      → IsReplaying V Meant log rest rest [] r
      → IsBuilding V Meant log [] r
  IsReplaying-IsBuilding rest r b = record {
    laws = b.laws;
    meant = b.meant;
    shown = b.shown ∙ b.complete;
    built = b.built ∙ ap (λ l. replayed b.laws.step l b.start) (append-nil rest) ∙ b.complete;
  }

  -- a replay that ends has shown the whole log to the readers, and none runs out of fuel
  abbrev pub Finished : Replayed P S → Type 0
  Finished (replay_done s) = (s.log ≡ log) × AllCurrent V Meant log s.projectors
  Finished (stopped why) = Unit
  Finished out_of_fuel = ⊥

  module _ (skipped : ℕ → String → Bool)
      (none_skipped : (pos : ℕ) (name : String) → skipped pos name ≡ false) where
    replay_events-lem :
        (rest done es batch : List (Event P)) (regs : List (ProjectorReg P S))
        → AllSync (IsReplaying V Meant log rest done es) regs
        → Ensures
            (AllSync (IsReplaying V Meant log rest done (es ++ batch)))
            (replay_events skipped batch regs)
    unfolding replay_events
    replay_events-lem rest done es [] regs h = rw (append-nil es) h
    replay_events-lem rest done es (e ∷ batch) regs h =
        of_event (replay_event skipped e regs)
          (replay_event-lem V Meant log skipped rest done es e regs none_skipped h)
          (λ next k. replay_events-lem rest done (es ++ (e ∷ [])) batch next k)
      where
        of_event :
            (c : Checked (List (ProjectorReg P S)))
            → Ensures (AllSync (IsReplaying V Meant log rest done (es ++ (e ∷ [])))) c
            → ((next : List (ProjectorReg P S))
                → AllSync (IsReplaying V Meant log rest done (es ++ (e ∷ []))) next
                → Ensures
                    (AllSync (IsReplaying V Meant log rest done ((es ++ (e ∷ [])) ++ batch)))
                    (replay_events skipped batch next))
            → Ensures
                (AllSync (IsReplaying V Meant log rest done (es ++ (e ∷ batch))))
                (replay_then c (replay_events skipped batch))
        of_event (failed why) h ih = tt
        of_event (good next) h ih = rw (← append_assoc es (e ∷ []) batch) (ih next h)

    -- a store in the middle of a replay
    pub record IsRound (rest done : List (Event P)) (s : Store P S) : Type 0 where
      pub same_log : s.log ≡ log
      pub projectors : AllSync (IsReplaying V Meant log rest done []) s.projectors

    replay_rows-lem :
        (f : ReplayFaults) (after : ℕ) (rest done batch : List (Event P)) (s : Store P S)
        → IsRound rest done s
        → Ensures (IsRound rest (done ++ batch)) (replay_rows f skipped after batch s)
    replay_rows-lem f after rest done [] s h = rw (append-nil done) h
    replay_rows-lem f after rest done (e ∷ batch) s h =
        of_cases (f.begin after) (f.advance_cursor after) (f.commit after)
          (replay_events skipped (e ∷ batch) s.projectors)
          (replay_events-lem rest done [] (e ∷ batch) s.projectors h.projectors)
      where
        of_cases :
            (begin cursor commit : Option String) (c : Checked (List (ProjectorReg P S)))
            → Ensures (AllSync (IsReplaying V Meant log rest done (e ∷ batch))) c
            → Ensures
                (IsRound rest (done ++ (e ∷ batch)))
                (fault_then begin (finish_batch cursor commit (last_position 0 (e ∷ batch)) s c))
        of_cases (some why) cursor commit c k = tt
        of_cases none cursor commit (failed why) k = tt
        of_cases none (some why) commit (good regs) k = tt
        of_cases none none (some why) (good regs) k = tt
        of_cases none none none (good regs) k = record {
          same_log = h.same_log;
          projectors = promote_all-AllReplaying rest done (e ∷ batch) regs k;
        }

    pub finished :
        (rest : List (Event P)) (s : Store P S) → IsRound rest rest s → Finished (replay_done s)
    finished rest s h = (
      h.same_log,
      AllSync-map (IsReplaying V Meant log rest rest []) (IsBuilding V Meant log [])
          (IsReplaying-IsBuilding rest) s.projectors h.projectors,
    )

    pub replay_loop-Finished :
        (fuel : ℕ) (f : ReplayFaults) (latest cursor : ℕ) (rest done before after : List (Event P))
        (s : Store P S)
        → log ≡ before ++ after
        → length before ≡ cursor
        → rest ≡ done ++ after
        → IsNumbered 1 log
        → latest ≡ length log
        → latest ≤ fuel + cursor
        → IsRound rest done s
        → Finished (replay_loop fuel f skipped latest cursor s)
    unfolding replay_loop
    replay_loop-Finished zero f latest cursor rest done before [] s split at_cursor so_far numbered
          last enough h =
        let at_end : ltb cursor latest ≡ false =
          ended latest cursor before at_cursor (last ∙ ap length split) in
        let whole : rest ≡ done = so_far ∙ append-nil done in
        rw at_end (finished rest s (subst (λ d. IsRound rest d s) (sym whole) h))
    replay_loop-Finished (suc fuel) f latest cursor rest done before [] s split at_cursor so_far
          numbered last enough h =
        let at_end : ltb cursor latest ≡ false =
          ended latest cursor before at_cursor (last ∙ ap length split) in
        let whole : rest ≡ done = so_far ∙ append-nil done in
        rw at_end (finished rest s (subst (λ d. IsRound rest d s) (sym whole) h))
    replay_loop-Finished zero f latest cursor rest done before (e ∷ after) s split at_cursor so_far
          numbered last enough h =
        absurd (
          omega
            (arith, last ∙ ap length split, length-append before (e ∷ after), at_cursor, enough))
    replay_loop-Finished (suc fuel) f latest cursor rest done before (e ∷ after) s split at_cursor
          so_far numbered last enough h =
        let more : ltb cursor latest ≡ true =
          ground (arith, last ∙ ap length split, length-append before (e ∷ after), at_cursor) in
        let batch = e ∷ take 999 after in
        let later = drop 999 after in
        let cut : e ∷ after ≡ batch ++ later = ap (λ l. e ∷ l) (take-append-drop 999 after) in
        let rows : select_rows cursor 0 1000 s.log ≡ batch =
          ap (select_rows cursor 0 1000) (h.same_log ∙ split)
          ∙ select_rows-after cursor 0 1000 before (e ∷ after) (rw (← split) numbered) at_cursor in
        rw (more, replay_batch, rows)
          (of_batch (f.select_batch cursor) (take 999 after) (replay_rows f skipped cursor batch s)
            (replay_rows-lem f cursor rest done batch s h)
            (λ s' applied. replay_loop fuel f skipped latest (cursor + applied) s')
            (λ s' h'.
              replay_loop-Finished fuel f latest (cursor + length batch) rest (done ++ batch)
                (before ++ batch) later s'
                (split ∙ ap (λ l. before ++ l) cut ∙ sym (append_assoc before batch later))
                (length-append before batch ∙ ap (λ n. n + length batch) at_cursor)
                (so_far ∙ ap (λ l. done ++ l) cut ∙ sym (append_assoc done batch later)) numbered
                last (omega (arith, enough)) h'))
      where
        of_batch :
            (fault : Option String) (rows : List (Event P)) (c : Checked (Store P S))
            → Ensures (IsRound rest (done ++ (e ∷ rows))) c
            → (next : Store P S → ℕ → Replayed P S)
            → ((s' : Store P S)
                → IsRound rest (done ++ (e ∷ rows)) s'
                → Finished (next s' (length (e ∷ rows))))
            → Finished (continue_replay (fault_then fault c, length (e ∷ rows)) next)
        of_batch (some why) rows c k next ih = tt
        of_batch none rows (failed why) k next ih = tt
        of_batch none rows (good s') k next ih = ih s' k
