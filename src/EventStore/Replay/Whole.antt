-- ===== src/EventStore/Replay/Whole.antt =====
-- `Replay` as a whole.
use gohome.Prelude.{
  ℕ, zero, suc, ◌+◌, ◌≤◌, String, ◌≡◌, ◌≢◌, refl, ◌∙◌, subst, Bool, true, false, List, [], ◌∷◌,
  Option, none, some, ltb, leb, length, take, drop, take-append-drop, length-take-short, arith,
  if◌then◌else◌, Bool-cases, inl, inr,
}
use gohome.EventStore.Event.{Event}
use gohome.EventStore.Projector.{AllSync, Operations, Laws}
use gohome.EventStore.Store.{Store}
use gohome.EventStore.Store.Outcome.{IsNumbered}
use gohome.EventStore.Replay.{
  ReplayFaults, Restored, Replayed, already_started, replay_done, stopped, out_of_fuel, Checked,
  good, failed, restore_projectors, replay_batch, continue_replay, replay_loop,
  load_latest_position, replay_restored, replay,
}
use gohome.EventStore.Replay.Recovery.{
  IsReplaying, HasSnapshot, Ensures, AllRestored, restore_projectors-AllRestored,
}
use gohome.EventStore.Replay.Rounds.{Finished, finished, replay_loop-Finished}

load_latest_position-length :
    {P : Type 0} (n : ℕ) (es : List (Event P)) (e : Event P)
    → IsNumbered (suc n) (e ∷ es)
    → load_latest_position (e ∷ es) ≡ n + length (e ∷ es)
load_latest_position-length n [] e (p, h) = rw p (ground arith)
load_latest_position-length n (e' ∷ es) e (p, h) =
    rw (p, load_latest_position-length (suc n) es e' h) (ground arith)

latest-length :
    {P : Type 0} (log : List (Event P)) → IsNumbered 1 log → load_latest_position log ≡ length log
latest-length [] h = refl
latest-length (e ∷ es) h = load_latest_position-length 0 es e h ∙ omega arith

drop-beyond : {P : Type 0} (c : ℕ) (l : List (Event P)) → length l ≤ c → drop c l ≡ []
drop-beyond zero [] h = refl
drop-beyond zero (x ∷ l) h = absurd (omega (arith, h))
drop-beyond (suc c) [] h = refl
drop-beyond (suc c) (x ∷ l) h = drop-beyond c l (omega (arith, h))

-- with no round to make
replay_loop-idle :
    {P S : Type 0} (fuel : ℕ) (f : ReplayFaults) (skipped : ℕ → String → Bool) (latest cursor : ℕ)
    (s : Store P S)
    → ltb cursor latest ≡ false
    → replay_loop fuel f skipped latest cursor s ≡ replay_done s
unfolding replay_loop
replay_loop-idle zero f skipped latest cursor s h = rw h refl
replay_loop-idle (suc fuel) f skipped latest cursor s h = rw h refl

module _ {P S : Type 0} (f : ReplayFaults) (skipped : ℕ → String → Bool) where
  replay_loop-ends :
      (fuel latest cursor : ℕ) (s : Store P S)
      → latest ≤ fuel + cursor
      → replay_loop fuel f skipped latest cursor s ≢ out_of_fuel
  unfolding replay_loop
  replay_loop-ends zero latest cursor s h =
      let e : ltb cursor latest ≡ false = ground (arith, h) in rw e (λ k. cc)
  replay_loop-ends (suc fuel) latest cursor s h = elim (Bool-cases (ltb cursor latest)) [
    | inl more ↦ rw more (
        of_batch (replay_batch f skipped cursor 1000 s)
          (λ s' applied k. replay_loop-ends fuel latest (cursor + applied) s' k))
    | inr done ↦ rw done (λ k. cc)
  ]
    where
      of_batch :
          (b : Checked (Store P S) × ℕ)
          → ((s' : Store P S) (applied : ℕ)
              → latest ≤ fuel + (cursor + applied)
              → replay_loop fuel f skipped latest (cursor + applied) s' ≢ out_of_fuel)
          → continue_replay b
              (λ s' applied. replay_loop fuel f skipped latest (cursor + applied) s')
            ≢ out_of_fuel
      of_batch (failed why, applied) ih = λ k. cc
      of_batch (good s', zero) ih = λ k. cc
      of_batch (good s', suc applied) ih = ih s' (suc applied) (omega (arith, h))

  -- `Replay` comes to an end: however the database answers, whatever the projectors do and
  -- whatever positions the rows have, a round for each position up to the last is enough.
  pub replay-ends :
      (fuel : ℕ) (s : Store P S)
      → load_latest_position s.log ≤ fuel
      → replay fuel f skipped s ≢ out_of_fuel
  unfolding replay
  replay-ends fuel s h =
      by_test s.started (of_restored f.last_position (restore_projectors f.restore s.projectors))
    where
      by_test :
          (b : Bool) {r : Replayed P S}
          → r ≢ out_of_fuel
          → (if b then stopped already_started else r) ≢ out_of_fuel
      by_test true h = λ k. cc
      by_test false h = h

      of_restored :
          (fault : Option String) (r : Checked (Restored P S))
          → replay_restored fuel f skipped fault r s ≢ out_of_fuel
      of_restored fault (failed why) = λ k. cc
      of_restored (some why) (good r) = λ k. cc
      of_restored none (good r) =
          replay_loop-ends fuel (load_latest_position s.log) _ (record s { projectors = r.regs })
            (omega (arith, h))

module _ {P S : Type 0} (V : Type 0) (Meant : (o : Operations P S) → Laws P S V o → Type 0)
    (f : ReplayFaults) (skipped : ℕ → String → Bool)
    (none_skipped : (pos : ℕ) (name : String) → skipped pos name ≡ false) where
  replay_from :
      (fuel c : ℕ) (s : Store P S)
      → IsNumbered 1 s.log
      → length s.log ≤ fuel
      → AllSync (IsReplaying V Meant s.log (drop c s.log) [] []) s.projectors
      → Finished V Meant s.log (replay_loop fuel f skipped (load_latest_position s.log) c s)
  replay_from fuel c s numbered enough h = elim (Bool-cases (leb c (length s.log))) [
    | inl within ↦
        let short : c ≤ length s.log = ground (arith, within) in
        replay_loop-Finished V Meant s.log skipped none_skipped fuel f (load_latest_position s.log)
          c (drop c s.log) [] (take c s.log) (drop c s.log) s (take-append-drop c s.log)
          (length-take-short c s.log short) refl numbered (latest-length s.log numbered)
          (omega (arith, enough, latest-length s.log numbered))
          (record { same_log = refl; projectors = h })
    | inr beyond ↦
        let past : length s.log ≤ c = ground (arith, beyond) in
        let idle : ltb c (load_latest_position s.log) ≡ false =
          ground (arith, past, latest-length s.log numbered) in
        rw (replay_loop-idle fuel f skipped (load_latest_position s.log) c s idle) (
          finished V Meant s.log skipped none_skipped [] s (record {
            same_log = refl;
            projectors =
                subst (λ l. AllSync (IsReplaying V Meant s.log l [] []) s.projectors)
                  (drop-beyond c s.log past) h;
          }))
  ]

  -- After a restart, where each synchronous projector restores the view of some first part of the
  -- log, no event is skipped, and there is a round for each row: `Replay` ends, and if it ends without an error the
  -- log is untouched and the readers of each synchronous projector see the view of the whole log,
  -- wherever the snapshots of the projectors stand.
  pub replay-Finished :
      (fuel : ℕ) (s : Store P S)
      → IsNumbered 1 s.log
      → length s.log ≤ fuel
      → AllSync (HasSnapshot V Meant s.log) s.projectors
      → Finished V Meant s.log (replay fuel f skipped s)
  unfolding replay
  replay-Finished fuel s numbered enough h = by_test s.started _ (
      of_restored f.last_position (restore_projectors f.restore s.projectors)
        (restore_projectors-AllRestored V Meant s.log f.restore s.projectors h))
    where
      by_test :
          (b : Bool) (r : Replayed P S)
          → Finished V Meant s.log r
          → Finished V Meant s.log (if b then stopped already_started else r)
      by_test true r k = tt
      by_test false r k = k

      least_of : (min : Option ℕ) → (m : ℕ) → min ≡ some m → elim min [ none ↦ 0 | some n ↦ n ] ≤ m
      least_of none m e = omega arith
      least_of (some n) m e = let same : n ≡ m = cc in omega (arith, same)

      of_restored :
          (fault : Option String) (r : Checked (Restored P S))
          → Ensures (AllRestored V Meant s.log) r
          → Finished V Meant s.log (replay_restored fuel f skipped fault r s)
      of_restored fault (failed why) k = tt
      of_restored (some why) (good r) k = tt
      of_restored none (good r) k =
          replay_from fuel _ (record s { projectors = r.regs }) numbered enough
            (k _ (least_of r.min_cursor))
