-- ===== src/EventStore/Replay/Recovery.antt =====
-- The projectors from their snapshots on, in a replay.
use gohome.Prelude.{
  ℕ, zero, suc, ◌-◌, ◌≤◌, String, ◌≡◌, refl, sym, ap, ◌∙◌, subst, Bool, true, false, List, [], ◌∷◌,
  ◌++◌, Option, none, some, ltb, ltb→lt, take, drop, take-append-drop, arith, Bool-cases, inl, inr,
}
use mathlib.Core.List.{append_assoc}
use gohome.EventStore.Event.{Event}
use gohome.EventStore.Projector.{Operations, ProjectorReg, Laws, replayed, AllSync}
use gohome.EventStore.Store.{with_state}
use gohome.EventStore.Store.Apply.{replayed-append}
use gohome.EventStore.Replay.{
  Restored, Checked, good, failed, keep_going, least, restore_one, restore_projectors, replay_one,
  replay_event,
}

take-nil : {P : Type 0} (n : ℕ) → ◌≡◌ {A = List (Event P)} [] (take n [])
take-nil zero = refl
take-nil (suc n) = refl

-- the first rows of a list, by those of a shorter one
take-of :
    {P : Type 0} (c p : ℕ) (l : List (Event P))
    → c ≤ p
    → take p l ≡ take c l ++ take (p - c) (drop c l)
take-of zero p l h = let e : p ≡ p - zero = omega arith in ap (λ n. take n l) e
take-of (suc c) zero l h = absurd (omega (arith, h))
take-of (suc c) (suc p) [] h = take-nil (suc p - suc c)
take-of (suc c) (suc p) (x ∷ l) h =
    let e : suc p - suc c ≡ p - c = omega arith in
    rw e (ap (λ t. x ∷ t) (take-of c p l (omega (arith, h))))

-- the projectors that a loop gives, where no error ends it
abbrev pub Ensures : {A : Type 0} → (A → Type 0) → Checked A → Type 0
Ensures Q (good a) = Q a
Ensures Q (failed why) = Unit

least_le :
    (c pos : ℕ) (min : Option ℕ)
    → ((m : ℕ) → least pos min ≡ some m → c ≤ m)
    → (c ≤ pos) × ((m : ℕ) → min ≡ some m → c ≤ m)
least_le c pos none h = (h pos refl, λ m e. cc)
least_le c pos (some n) h = elim (Bool-cases (ltb pos n)) [
  | inl below ↦
      let k : c ≤ pos = h pos (rw below refl) in
      let k' : c ≤ n = omega (arith, k, ltb→lt pos n below) in
      (k, λ m e. subst (λ x. c ≤ x) (cc) k')
  | inr above ↦
      let k : c ≤ n = h n (rw above refl) in
      let k' : c ≤ pos = ground (arith, k, above) in (k', λ m e. subst (λ x. c ≤ x) (cc) k)
]

module _ {P S : Type 0} (V : Type 0) (Meant : (o : Operations P S) → Laws P S V o → Type 0)
    (log : List (Event P)) where
  -- In a replay of `rest`: the projector has shown `done` on top of what its snapshot held, from
  -- which all of `rest` leads to the view of the log, and has applied `es` in the open transaction.
  pub record IsReplaying (rest done es : List (Event P)) (r : ProjectorReg P S) : Type 0 where
    pub laws : Laws P S V r.operations
    pub meant : Meant r.operations laws
    pub start : V
    pub complete : replayed laws.step rest start ≡ replayed laws.step log laws.initial
    pub shown : laws.readers r.state ≡ replayed laws.step done start
    pub built : laws.built r.state ≡ replayed laws.step (done ++ es) start

  -- a snapshot that the projector restores is the view of a first part of the log
  pub record IsSnapshot (r : ProjectorReg P S) (state : S) (pos : ℕ) : Type 0 where
    pub laws : Laws P S V r.operations
    pub meant : Meant r.operations laws
    pub shown : laws.readers state ≡ replayed laws.step (take pos log) laws.initial
    pub built : laws.built state ≡ replayed laws.step (take pos log) laws.initial

  abbrev pub HasSnapshot : ProjectorReg P S → Type 0
  HasSnapshot r =
      (state : S) (pos : ℕ)
      → r.operations.restore r.state ≡ some (state, pos)
      → IsSnapshot r state pos

  -- What lies between the first cursor and a snapshot is replayed on top of itself.
  complete-again :
      (c pos : ℕ) {o : Operations P S} (laws : Laws P S V o)
      → c ≤ pos
      → replayed laws.step (drop c log) (replayed laws.step (take pos log) laws.initial)
        ≡ replayed laws.step log laws.initial
  complete-again c pos laws h =
      let before = take c log in
      let between = take (pos - c) (drop c log) in
      let after = drop (pos - c) (drop c log) in
      let v = replayed laws.step before laws.initial in
      let e1 : replayed laws.step (take pos log) laws.initial ≡ replayed laws.step between v =
        ap (λ l. replayed laws.step l laws.initial) (take-of c pos log h)
        ∙ replayed-append laws.step before between laws.initial in
      let e2 : (w : V)
          → replayed laws.step (drop c log) w
            ≡ replayed laws.step after (replayed laws.step between w) =
        λ w.
          ap (λ l. replayed laws.step l w) (take-append-drop (pos - c) (drop c log))
          ∙ replayed-append laws.step between after w in
      let e3 : replayed laws.step log laws.initial ≡ replayed laws.step (drop c log) v =
        ap (λ l. replayed laws.step l laws.initial) (take-append-drop c log)
        ∙ replayed-append laws.step before (drop c log) laws.initial in
      ap (replayed laws.step (drop c log)) e1
      ∙ e2 (replayed laws.step between v)
      ∙ ap (replayed laws.step after) (laws.again between v)
      ∙ sym (e2 v)
      ∙ sym e3

  restored-IsReplaying :
      (c pos : ℕ) (state : S) (r : ProjectorReg P S)
      → c ≤ pos
      → IsSnapshot r state pos
      → IsReplaying (drop c log) [] [] (with_state state r)
  restored-IsReplaying c pos state r h k = record {
    laws = k.laws;
    meant = k.meant;
    start = replayed k.laws.step (take pos log) k.laws.initial;
    complete = complete-again c pos k.laws h;
    shown = k.shown;
    built = k.built;
  }

  -- from the least position on, or from any before it
  abbrev pub AllRestored : Restored P S → Type 0
  AllRestored r =
      (c : ℕ)
      → ((m : ℕ) → r.min_cursor ≡ some m → c ≤ m)
      → AllSync (IsReplaying (drop c log) [] []) r.regs

  pub restore_projectors-AllRestored :
      (fault : String → Option String) (regs : List (ProjectorReg P S))
      → AllSync HasSnapshot regs
      → Ensures AllRestored (restore_projectors fault regs)
  unfolding restore_projectors
  restore_projectors-AllRestored fault [] h = λ c k. tt
  restore_projectors-AllRestored fault (r ∷ rest) (h, hs) =
      of_cases (r.operations.restore r.state) (fault r.name) (restore_projectors fault rest) refl
        (restore_projectors-AllRestored fault rest hs)
    where
      of_cases :
          (o : Option (S × ℕ)) (f : Option String) (later : Checked (Restored P S))
          → r.operations.restore r.state ≡ o
          → Ensures AllRestored later
          → Ensures AllRestored (restore_one o f r later)
      of_cases none f later e ih = tt
      of_cases (some (state, pos)) (some why) later e ih = tt
      of_cases (some (state, pos)) none (failed why) e ih = tt
      of_cases (some (state, pos)) none (good later) e ih = λ c k.
          let both = least_le c pos later.min_cursor k in
          (λ s. restored-IsReplaying c pos state r both.0 (h s state pos e), ih c both.1)

  pub replay_event-lem :
      (skipped : ℕ → String → Bool) (rest done es : List (Event P)) (e : Event P)
      (regs : List (ProjectorReg P S))
      → ((pos : ℕ) (name : String) → skipped pos name ≡ false)
      → AllSync (IsReplaying rest done es) regs
      → Ensures (AllSync (IsReplaying rest done (es ++ (e ∷ [])))) (replay_event skipped e regs)
  unfolding replay_event
  replay_event-lem skipped rest done es e [] none_skipped h = tt
  replay_event-lem skipped rest done es e (r ∷ more) none_skipped (h, hs) =
      rw (none_skipped e.position r.name) (
        of_cases r.is_sync (r.operations.apply e r.state) refl refl (replay_event skipped e more)
          (replay_event-lem skipped rest done es e more none_skipped hs))
    where
      applied :
          (s : S)
          → r.operations.apply e r.state ≡ some s
          → IsReplaying rest done es r
          → IsReplaying rest done (es ++ (e ∷ [])) (with_state s r)
      applied s a b = record {
        laws = b.laws;
        meant = b.meant;
        start = b.start;
        complete = b.complete;
        shown = b.laws.apply-readers e r.state s a ∙ b.shown;
        built =
            b.laws.apply-built e r.state s a
            ∙ ap (b.laws.step e) b.built
            ∙ sym (replayed-append b.laws.step (done ++ es) (e ∷ []) b.start)
            ∙ ap (λ l. replayed b.laws.step l b.start) (append_assoc done es (e ∷ []));
      }

      kept :
          (r' : ProjectorReg P S) (later : Checked (List (ProjectorReg P S)))
          → (r'.is_sync ≡ true → IsReplaying rest done (es ++ (e ∷ [])) r')
          → Ensures (AllSync (IsReplaying rest done (es ++ (e ∷ [])))) later
          → Ensures (AllSync (IsReplaying rest done (es ++ (e ∷ [])))) (keep_going r' later)
      kept r' (failed why) g ih = tt
      kept r' (good later) g ih = (g, ih)

      of_cases :
          (sync : Bool) (state : Option S)
          → r.is_sync ≡ sync
          → r.operations.apply e r.state ≡ state
          → (later : Checked (List (ProjectorReg P S)))
          → Ensures (AllSync (IsReplaying rest done (es ++ (e ∷ [])))) later
          → Ensures
              (AllSync (IsReplaying rest done (es ++ (e ∷ []))))
              (replay_one sync false state e.position r later)
      of_cases false state async a later ih = kept r later (λ s. cc (sym async ∙ s)) ih
      of_cases true none sync a later ih = tt
      of_cases true (some s) sync a later ih =
          kept (with_state s r) later (λ y. applied s a (h y)) ih
