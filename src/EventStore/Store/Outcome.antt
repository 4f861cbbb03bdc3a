-- ===== src/EventStore/Store/Outcome.antt =====
-- The store after a transaction that appends rows.
use gohome.Prelude.{
  ℕ, suc, ◌+◌, String, ◌≡◌, refl, ap, ◌∙◌, not, List, [], ◌∷◌, ◌++◌, Option, none, some, arith,
  length, Bool-cases, inl, inr,
}
use gohome.EventStore.Event.{Event}
use gohome.EventStore.Projector.{ProjectorReg, AllSync, IsShown, IsBuilding, Operations, Laws}
use gohome.EventStore.Store.{
  StoreError, Faults, Attempt, Store, is_sqlite_busy, roll_back, commit_tx, database, retried,
  with_retry,
}
use gohome.EventStore.Store.Apply.{AllCurrent, discard_all-AllCurrent, promote_all-AllCurrent}

-- the positions of the rows are the numbers from `n` on
abbrev pub IsNumbered : {P : Type 0} → ℕ → List (Event P) → Type 0
IsNumbered n [] = Unit
IsNumbered n (e ∷ es) = (e.position ≡ n) × IsNumbered (suc n) es

pub IsNumbered-append :
    {P : Type 0} (n m : ℕ) (xs ys : List (Event P))
    → IsNumbered n xs
    → IsNumbered m ys
    → m ≡ n + length xs
    → IsNumbered n (xs ++ ys)
IsNumbered-append n m [] ys h k e = let e' : m ≡ n = e ∙ omega arith in rw (← e') k
IsNumbered-append n m (x ∷ xs) ys (p, h) k e =
    (p, IsNumbered-append (suc n) m xs ys h k (omega (arith, e)))

module _ {P S : Type 0} (V : Type 0) (Meant : (o : Operations P S) → Laws P S V o → Type 0) where
  -- what the store keeps true between its operations
  pub record IsConsistent (s : Store P S) : Type 0 where
    pub numbered : IsNumbered 1 s.log
    pub last : s.last_id ≡ length s.log
    pub latest : s.latest_position ≡ length s.log
    pub current : AllCurrent V Meant s.log s.projectors

  pub record IsKept (s s' : Store P S) : Type 0 where
    pub log : s'.log ≡ s.log
    pub last : s'.last_id ≡ s.last_id
    pub latest : s'.latest_position ≡ s.latest_position
    pub cursors : s'.cursors ≡ s.cursors
    pub current : AllCurrent V Meant s.log s'.projectors

  pub record IsGrown (rows : List (Event P)) (s s' : Store P S) : Type 0 where
    pub log : s'.log ≡ s.log ++ rows
    pub last : s'.last_id ≡ s.last_id + length rows
    pub latest : s'.latest_position ≡ s.latest_position
    pub current : AllCurrent V Meant (s.log ++ rows) s'.projectors

  -- an error rolls back, else the rows are there
  abbrev pub Outcome : List (Event P) → Store P S → Store P S × Option StoreError → Type 0
  Outcome rows s (s', some err) = IsKept s s'
  Outcome rows s (s', none) = IsGrown rows s s'

  pub roll_back-IsKept :
      (err : StoreError) (regs : List (ProjectorReg P S)) (s : Store P S)
      → AllSync (IsShown V Meant s.log) regs
      → IsKept s (roll_back err regs s).0
  roll_back-IsKept err regs s h = record {
    log = refl;
    last = refl;
    latest = refl;
    cursors = refl;
    current = discard_all-AllCurrent V Meant s.log regs h;
  }

  pub commit_tx-Outcome :
      (fault : Option String) (rows : List (Event P)) (last : ℕ) (regs : List (ProjectorReg P S))
      (s : Store P S)
      → last ≡ s.last_id + length rows
      → AllSync (IsShown V Meant s.log) regs
      → AllSync (IsBuilding V Meant s.log rows) regs
      → Outcome rows s (commit_tx fault rows last regs s)
  commit_tx-Outcome (some why) rows last regs s e shown built =
      roll_back-IsKept (database why) regs s shown
  commit_tx-Outcome none rows last regs s e shown built = record {
    log = refl;
    last = e;
    latest = refl;
    current = promote_all-AllCurrent V Meant s.log rows regs built;
  }

  IsKept-trans :
      (rows : List (Event P)) (s s' : Store P S) (r : Store P S × Option StoreError)
      → IsKept s s'
      → Outcome rows s' r
      → Outcome rows s r
  IsKept-trans rows s s' (t, some err) h k = record {
    log = k.log ∙ h.log;
    last = k.last ∙ h.last;
    latest = k.latest ∙ h.latest;
    cursors = k.cursors ∙ h.cursors;
    current = rw (← h.log) k.current;
  }
  IsKept-trans rows s s' (t, none) h k = record {
    log = k.log ∙ ap (λ l. l ++ rows) h.log;
    last = k.last ∙ ap (λ n. n + length rows) h.last;
    latest = k.latest ∙ h.latest;
    current = rw (← h.log) k.current;
  }

  -- The rows depend on the last id only, which an attempt that fails leaves as it is.
  pub with_retry-Outcome :
      (rows : ℕ → List (Event P)) (fn : Faults → Store P S → Store P S × Option StoreError)
      → ((f : Faults) (s : Store P S)
          → AllCurrent V Meant s.log s.projectors
          → Outcome (rows s.last_id) s (fn f s))
      → (a : Attempt) (rest : List Attempt) (s : Store P S) → AllCurrent V Meant s.log s.projectors
      → Outcome (rows s.last_id) s (with_retry fn a rest s)
  unfolding with_retry
  with_retry-Outcome rows fn h a [] s c = h a.faults s c
  with_retry-Outcome rows fn h a (a' ∷ rest) s c =
      of_result (fn a.faults s) (h a.faults s c)
        (λ d. with_retry-Outcome rows fn h a' rest (fn a.faults s).0 d)
    where
      of_result :
          (r : Store P S × Option StoreError)
          → Outcome (rows s.last_id) s r
          → (AllCurrent V Meant r.0.log r.0.projectors
              → Outcome (rows r.0.last_id) r.0 (with_retry fn a' rest r.0))
          → Outcome (rows s.last_id) s (retried a.canceled_after r (with_retry fn a' rest r.0))
      of_result (s', none) o again = o
      of_result (s', some err) o again = elim (Bool-cases (not (is_sqlite_busy err))) [
        | inl other ↦ rw other o
        | inr busy ↦ elim (Bool-cases a.canceled_after) [
          | inl ended ↦ rw (busy, ended) o
          | inr waits ↦
              rw (busy, waits)
                (IsKept-trans (rows s.last_id) s s' (with_retry fn a' rest s') o
                  (rw (← o.last) (again (rw (o.log) o.current))))
        ]
      ]
