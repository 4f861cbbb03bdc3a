-- ===== src/EventStore/Projector.antt =====
-- internal/eventstore/projector.go: the interface, and what the store relies on. A projector's
-- state is one value, in memory or in tables; for tables, `promote` and `discard` are the commit
-- and the rollback of the transaction.
use gohome.Prelude.{ℕ, String, ◌≡◌, Bool, true, List, [], ◌∷◌, Option, some}
use gohome.EventStore.Event.{Event}

-- `apply` gives none for an error, whose message is `apply_error`, and `restore` none for an error, else the state with the
-- position of the snapshot that it was read from, 0 without one.
pub record Operations (P S : Type 0) : Type 0 where
  pub apply : Event P → S → Option S
  pub apply_error : Event P → S → String
  pub promote : S → S
  pub discard : S → S
  pub restore : S → Option (S × ℕ)

pub record ProjectorReg (P S : Type 0) : Type 0 where
  pub name : String
  pub is_sync : Bool
  pub operations : Operations P S
  pub state : S

-- a view of the log, event by event
abbrev pub replayed : {P V : Type 0} → (Event P → V → V) → List (Event P) → V → V
replayed step [] v = v
replayed step (e ∷ es) v = replayed step es (step e v)

-- What a projector promises: `readers` is what its readers see, and `built` what the transaction
-- has made of it so far. Applying the same events again changes no view that they have made.
pub record Laws (P S V : Type 0) (o : Operations P S) : Type 0 where
  pub initial : V
  pub readers : S → V
  pub built : S → V
  pub step : Event P → V → V
  pub apply-built : (e : Event P) (s s' : S) → o.apply e s ≡ some s' → built s' ≡ step e (built s)
  pub apply-readers : (e : Event P) (s s' : S) → o.apply e s ≡ some s' → readers s' ≡ readers s
  pub promote-readers : (s : S) → readers (o.promote s) ≡ built s
  pub promote-built : (s : S) → built (o.promote s) ≡ built s
  pub discard-readers : (s : S) → readers (o.discard s) ≡ readers s
  pub discard-built : (s : S) → built (o.discard s) ≡ readers s
  pub again :
      (es : List (Event P)) (v : V) → replayed step es (replayed step es v) ≡ replayed step es v

-- of each synchronous projector of the list
abbrev pub AllSync : {P S : Type 0} → (ProjectorReg P S → Type 0) → List (ProjectorReg P S) → Type 0
AllSync Q [] = Unit
AllSync Q (r ∷ rest) = (r.is_sync ≡ true → Q r) × AllSync Q rest

-- `Meant` tells which views are meant: what holds of a projector holds of the laws that it picks.
module _ {P S : Type 0} (V : Type 0) (Meant : (o : Operations P S) → Laws P S V o → Type 0)
    (log : List (Event P)) where
  -- what readers see is the view of the log
  pub record IsShown (r : ProjectorReg P S) : Type 0 where
    pub laws : Laws P S V r.operations
    pub meant : Meant r.operations laws
    pub shown : laws.readers r.state ≡ replayed laws.step log laws.initial

  -- and the transaction has applied the events `es` so far
  pub record IsBuilding (es : List (Event P)) (r : ProjectorReg P S) : Type 0 where
    pub laws : Laws P S V r.operations
    pub meant : Meant r.operations laws
    pub shown : laws.readers r.state ≡ replayed laws.step log laws.initial
    pub built : laws.built r.state ≡ replayed laws.step es (replayed laws.step log laws.initial)
