-- ===== src/EventStore/Store/Appends.antt =====
-- `Append` as a whole: the retries, the transaction and the latest position.
use gohome.Prelude.{
  ℕ, ◌+◌, String, ◌≡◌, refl, sym, ap, ◌∙◌, List, [], ◌∷◌, ◌++◌, Option, none, some, ltb, arith,
  length, length-append, string_eq, if◌then◌else◌,
}
use gohome.EventStore.Event.{Event}
use gohome.EventStore.Projector.{ProjectorReg, Operations, Laws}
use gohome.EventStore.Store.{
  StoreError, database, Faults, Attempt, Store, Ambient, Appended, at, append_failed, filled,
  at_position, at_most, apply_sync, after_apply, insert_row, append_tx, with_retry, append_tx_of,
  append_result, append_refusal, unless_refused, append,
}
use gohome.EventStore.Store.Apply.{
  AllCurrent, AllBuilding-AllShown, IsApplied, apply_sync-IsApplied,
}
use gohome.EventStore.Store.Outcome.{
  IsNumbered-append, IsConsistent, IsKept, Outcome, roll_back-IsKept, commit_tx-Outcome,
  with_retry-Outcome,
}

-- the row that an event gets
abbrev pub row_of : {P : Type 0} → Event P → ℕ → List (Event P)
row_of e n = at_position (n + 1) e ∷ []

module _ {P S : Type 0} (V : Type 0) (Meant : (o : Operations P S) → Laws P S V o → Type 0) where
  pub AllCurrent-IsKept :
      (s : Store P S) → AllCurrent V Meant s.log s.projectors → IsKept V Meant s s
  AllCurrent-IsKept s c = record {
    log = refl;
    last = refl;
    latest = refl;
    cursors = refl;
    current = c;
  }

  after_apply-Outcome :
      (f : Faults) (e : Event P) (s : Store P S) (r : List (ProjectorReg P S) × Option StoreError)
      → e.position ≡ s.last_id + 1
      → IsApplied V Meant s.log [] e r
      → Outcome V Meant (e ∷ []) s (after_apply f e s r)
  after_apply-Outcome f e s (regs, some err) p h = roll_back-IsKept V Meant err regs s h.shown
  after_apply-Outcome f e s (regs, none) p h =
      commit_tx-Outcome V Meant f.commit (e ∷ []) e.position regs s p h.shown (h.built refl)

  insert_row-Outcome :
      (begin row : Option String) (e : Event P) (f : Faults) (s : Store P S)
      → AllCurrent V Meant s.log s.projectors
      → Outcome V Meant (row_of e s.last_id) s (insert_row begin row f e s)
  insert_row-Outcome (some why) row e f s c = AllCurrent-IsKept s c
  insert_row-Outcome none (some why) e f s c =
      roll_back-IsKept V Meant (database why) s.projectors s
        (AllBuilding-AllShown V Meant s.log [] s.projectors c)
  insert_row-Outcome none none e f s c =
      let placed = at_position (s.last_id + 1) e in
      after_apply-Outcome f placed s (apply_sync f.advance_cursor placed s.projectors) refl
        (apply_sync-IsApplied V Meant s.log f.advance_cursor [] placed s.projectors c)

  append_tx-Outcome :
      (e : Event P) (f : Faults) (s : Store P S)
      → AllCurrent V Meant s.log s.projectors
      → Outcome V Meant (row_of e s.last_id) s (append_tx_of e f s)
  unfolding append_tx
  append_tx-Outcome e f s c = insert_row-Outcome f.begin (f.insert_event (s.last_id + 1)) e f s c

  -- The outcome of a call: the filled event stands at the end of the log, at the position that the
  -- caller is given; or nothing has changed but the projectors' own bookkeeping.
  abbrev pub IsAppended : Event P → Store P S → Store P S × Appended → Type 0
  IsAppended e s (s', at pos) =
      (pos ≡ length s.log + 1) × (s'.log ≡ s.log ++ (at_position pos e ∷ []))
  IsAppended e s (s', append_failed err) = s'.log ≡ s.log

  append_result-lem :
      (e : Event P) (s : Store P S) (r : Store P S × Option StoreError)
      → IsConsistent V Meant s
      → Outcome V Meant (row_of e s.last_id) s r
      → IsConsistent V Meant (append_result r).0 × IsAppended e s (append_result r)
  append_result-lem e s (s', some err) c o = (
    record {
      numbered = rw (o.log) (c.numbered);
      last = rw (o.log) (o.last ∙ c.last);
      latest = rw (o.log) (o.latest ∙ c.latest);
      current = rw (o.log) (o.current);
    },
    o.log,
  )
  append_result-lem e s (s', none) c o =
      let last = o.last ∙ ap (λ n. n + 1) c.last in
      let total : length s'.log ≡ length s.log + 1 =
        ap length o.log ∙ length-append s.log (row_of e s.last_id) in
      (
        record {
          numbered = rw (o.log) (
              IsNumbered-append 1 (s.last_id + 1) s.log (row_of e s.last_id) c.numbered (refl, tt)
                (ap (λ n. n + 1) c.last ∙ omega arith));
          last = last ∙ sym total;
          latest =
              raised s'.latest_position s'.last_id (o.latest ∙ c.latest) last ∙ last ∙ sym total;
          current = rw (o.log) (o.current);
        },
        (last, o.log ∙ ap (λ n. s.log ++ (at_position n e ∷ [])) (sym o.last)),
      )
    where
      raised :
          (now pos : ℕ)
          → now ≡ length s.log
          → pos ≡ length s.log + 1
          → (if ltb now pos then pos else now) ≡ pos
      raised now pos h k = ground (arith, h, k)

  -- A call of `Append`, whatever the database answers in its attempts, keeps the store consistent:
  -- positions are 1, 2, 3 and so on, the last id and the latest position are the length of the
  -- log, and the readers of each synchronous projector see the view of the whole log. Without an error the event, with its timestamp and
  -- correlation id filled in, is added at the end of the log, at the position that is returned;
  -- with an error the log is what it was.
  pub append-IsConsistent :
      (a : Ambient) (first : Attempt) (rest : List Attempt) (e : Event P) (s : Store P S)
      → IsConsistent V Meant s
      → IsConsistent V Meant (append a first rest e s).0
        × IsAppended (filled a e) s (append a first rest e s)
  unfolding append
  append-IsConsistent a first rest e s c = of_refusal (append_refusal e.payload a.marshal e) (
      append_result-lem (filled a e) s _ c (
        with_retry-Outcome V Meant (row_of (filled a e)) (append_tx_of (filled a e))
          (append_tx-Outcome (filled a e)) first (at_most 4 rest) s c.current))
    where
      of_refusal :
          (r : Option StoreError)
          → (let t =
                append_result (with_retry (append_tx_of (filled a e)) first (at_most 4 rest) s) in
              IsConsistent V Meant t.0 × IsAppended (filled a e) s t)
          → (let t =
                unless_refused r s (
                  append_result
                    (with_retry (append_tx_of (filled a e)) first (at_most 4 rest) s)) in
              IsConsistent V Meant t.0 × IsAppended (filled a e) s t)
      of_refusal (some err) h = (c, refl)
      of_refusal none h = h
