-- ===== src/EventStore/Store/Apply.antt =====
-- The projectors in a transaction.
use gohome.Prelude.{
  String, ◌≡◌, refl, sym, ap, ◌∙◌, Bool, true, false, List, [], ◌∷◌, ◌++◌, Option, none, some,
}
use gohome.EventStore.Event.{Event}
use gohome.EventStore.Projector.{
  Operations, ProjectorReg, Laws, replayed, AllSync, IsShown, IsBuilding,
}
use gohome.EventStore.Store.{
  StoreError, with_state, promote_all, discard_all, apply_one, apply_sync,
}

pub replayed-append :
    {P V : Type 0} (step : Event P → V → V) (xs ys : List (Event P)) (v : V)
    → replayed step (xs ++ ys) v ≡ replayed step ys (replayed step xs v)
replayed-append step [] ys v = refl
replayed-append step (x ∷ xs) ys v = replayed-append step xs ys (step x v)

pub AllSync-map :
    {P S : Type 0} (Q R : ProjectorReg P S → Type 0)
    → ((r : ProjectorReg P S) → Q r → R r)
    → (regs : List (ProjectorReg P S)) → AllSync Q regs
    → AllSync R regs
AllSync-map Q R f [] h = tt
AllSync-map Q R f (r ∷ rest) (h, hs) = (λ s. f r (h s), AllSync-map Q R f rest hs)

module _ {P S : Type 0} (V : Type 0) (Meant : (o : Operations P S) → Laws P S V o → Type 0)
    (log : List (Event P)) where
  -- a list of projectors with a finished transaction
  abbrev pub AllCurrent : List (ProjectorReg P S) → Type 0
  AllCurrent regs = AllSync (IsBuilding V Meant log []) regs

  pub IsBuilding-IsShown :
      (es : List (Event P)) (r : ProjectorReg P S)
      → IsBuilding V Meant log es r
      → IsShown V Meant log r
  IsBuilding-IsShown es r b = record { laws = b.laws; meant = b.meant; shown = b.shown }

  pub AllBuilding-AllShown :
      (es : List (Event P)) (regs : List (ProjectorReg P S))
      → AllSync (IsBuilding V Meant log es) regs
      → AllSync (IsShown V Meant log) regs
  AllBuilding-AllShown es regs =
      AllSync-map (IsBuilding V Meant log es) (IsShown V Meant log) (IsBuilding-IsShown es) regs

  pub discard_all-AllCurrent :
      (regs : List (ProjectorReg P S))
      → AllSync (IsShown V Meant log) regs
      → AllCurrent (discard_all regs)
  discard_all-AllCurrent [] h = tt
  discard_all-AllCurrent (r ∷ rest) (h, hs) = (λ s. dropped (h s), discard_all-AllCurrent rest hs)
    where
      dropped :
          IsShown V Meant log r
          → IsBuilding V Meant log [] (with_state (r.operations.discard r.state) r)
      dropped b = record {
        laws = b.laws;
        meant = b.meant;
        shown = b.laws.discard-readers r.state ∙ b.shown;
        built = b.laws.discard-built r.state ∙ b.shown;
      }

  pub promote_all-AllCurrent :
      (es : List (Event P)) (regs : List (ProjectorReg P S))
      → AllSync (IsBuilding V Meant log es) regs
      → AllSync (IsBuilding V Meant (log ++ es) []) (promote_all regs)
  promote_all-AllCurrent es [] h = tt
  promote_all-AllCurrent es (r ∷ rest) (h, hs) =
      (λ s. promoted (h s), promote_all-AllCurrent es rest hs)
    where
      promoted :
          IsBuilding V Meant log es r
          → IsBuilding V Meant (log ++ es) [] (with_state (r.operations.promote r.state) r)
      promoted b =
          let whole = b.built ∙ sym (replayed-append b.laws.step log es b.laws.initial) in
          record {
            laws = b.laws;
            meant = b.meant;
            shown = b.laws.promote-readers r.state ∙ whole;
            built = b.laws.promote-built r.state ∙ whole;
          }

  -- one projector that applies an event
  applied :
      (es : List (Event P)) (e : Event P) (r : ProjectorReg P S) (state : S)
      → r.operations.apply e r.state ≡ some state
      → IsBuilding V Meant log es r
      → IsBuilding V Meant log (es ++ (e ∷ [])) (with_state state r)
  applied es e r state h b = record {
    laws = b.laws;
    meant = b.meant;
    shown = b.laws.apply-readers e r.state state h ∙ b.shown;
    built =
        b.laws.apply-built e r.state state h
        ∙ ap (b.laws.step e) b.built
        ∙ sym (replayed-append b.laws.step es (e ∷ []) (replayed b.laws.step log b.laws.initial));
  }

  -- The loop over the projectors: readers see what they saw, and without an error each has applied
  -- the event.
  pub record IsApplied (es : List (Event P)) (e : Event P)
      (r : List (ProjectorReg P S) × Option StoreError) : Type 0 where
    pub shown : AllSync (IsShown V Meant log) r.0
    pub built : r.1 ≡ none → AllSync (IsBuilding V Meant log (es ++ (e ∷ []))) r.0

  pub apply_sync-IsApplied :
      (cursor : String → Option String) (es : List (Event P)) (e : Event P)
      (regs : List (ProjectorReg P S))
      → AllSync (IsBuilding V Meant log es) regs
      → IsApplied es e (apply_sync cursor e regs)
  unfolding apply_sync
  apply_sync-IsApplied cursor es e [] h = record { shown = tt; built = λ none_yet. tt }
  apply_sync-IsApplied cursor es e (r ∷ rest) (h, hs) =
      of_cases r.is_sync (r.operations.apply e r.state) (cursor r.name) refl refl
        (apply_sync-IsApplied cursor es e rest hs)
    where
      of_cases :
          (sync : Bool) (state : Option S) (row : Option String)
          → r.is_sync ≡ sync
          → r.operations.apply e r.state ≡ state
          → IsApplied es e (apply_sync cursor e rest)
          → IsApplied es e (
              apply_one sync state
                (r.operations.apply_error e r.state)
                row
                r
                rest
                (apply_sync cursor e rest))
      of_cases false state row async a later = record {
        shown = (λ s. cc (sym async ∙ s), later.shown);
        built = λ ok. (λ s. cc (sym async ∙ s), later.built ok);
      }
      of_cases true none row sync a later = record {
        shown = (λ s. IsBuilding-IsShown es r (h s), AllBuilding-AllShown es rest hs);
        built = λ ok. cc;
      }
      of_cases true (some state) (some why) sync a later = record {
        shown = (
          λ s. IsBuilding-IsShown _ _ (applied es e r state a (h s)),
          AllBuilding-AllShown es rest hs,
        );
        built = λ ok. cc;
      }
      of_cases true (some state) none sync a later = record {
        shown = (λ s. IsBuilding-IsShown _ _ (applied es e r state a (h s)), later.shown);
        built = λ ok. (λ s. applied es e r state a (h s), later.built ok);
      }
