-- ===== src/EventStore/CacheReads.antt =====
-- The store and the state cache together: what a reader of the cache gets after calls of `Append`
-- and `AppendBatch`.
use gohome.Prelude.{String, ◌≡◌, refl, sym, ap, ◌∙◌, true, List, [], ◌∷◌, Option, none}
use gohome.EventStore.Event.{Event}
use gohome.EventStore.Projector.{Operations, ProjectorReg, Laws, replayed, AllSync, IsBuilding}
use gohome.EventStore.Store.{Attempt, Store, Ambient, append}
use gohome.EventStore.Store.Apply.{AllSync-map}
use gohome.EventStore.Store.Outcome.{IsConsistent}
use gohome.EventStore.Store.Appends.{append-IsConsistent}
use gohome.EventStore.Batch.{append_batch}
use gohome.EventStore.Batch.AllOrNothing.{append_batch-IsConsistent}
use gohome.EventStore.CacheProjector.{View, updated_view, cache_operations, cache_laws}
use gohome.State.Cache.{Payload, Cache, Snapshot, Scanned, get, empty}

pub data Call (P : Type 0) : Type 0 where
  append_call : Ambient → Attempt → List Attempt → Event P → Call P
  batch_call : Attempt → List Attempt → List (Ambient × Event P) → Call P

module _ {P S : Type 0} where
  abbrev pub run_call : Call P → Store P S → Store P S
  run_call (append_call a first rest e) s = (append a first rest e s).0
  run_call (batch_call first rest events) s = (append_batch first rest events s).0

  abbrev pub run_calls : List (Call P) → Store P S → Store P S
  run_calls [] s = s
  run_calls (c ∷ calls) s = run_calls calls (run_call c s)

  -- a store with an empty log
  abbrev pub new_store : List (ProjectorReg P S) → Store P S
  new_store regs = record {
    log = [];
    last_id = 0;
    cursors = [];
    latest_position = 0;
    projectors = regs;
    started = true;
  }

  run_calls-IsConsistent :
      (V : Type 0) (Meant : (o : Operations P S) → Laws P S V o → Type 0) (calls : List (Call P))
      (s : Store P S)
      → IsConsistent V Meant s
      → IsConsistent V Meant (run_calls calls s)
  run_calls-IsConsistent V Meant [] s h = h
  run_calls-IsConsistent V Meant (append_call a first rest e ∷ calls) s h =
      run_calls-IsConsistent V Meant calls _ (append-IsConsistent V Meant a first rest e s h).0
  run_calls-IsConsistent V Meant (batch_call first rest events ∷ calls) s h =
      run_calls-IsConsistent V Meant calls _
        (append_batch-IsConsistent V Meant first rest events s h).0

module _ {A B : Type 0} (encode : Snapshot A → B) (decode : B → Option (Snapshot A)) where
  abbrev pub cache_projector : List (Scanned B) → ProjectorReg (Payload A) (Cache A)
  cache_projector rows = record {
    name = "state_cache";
    is_sync = true;
    operations = cache_operations encode decode rows;
    state = empty;
  }

  -- the view of a cache: what `Get` gives for each entity
  record IsCacheView (o : Operations (Payload A) (Cache A))
      (l : Laws (Payload A) (Cache A) (View A) o) : Type 0 where
    readers : l.readers ≡ (λ c id. get id c)
    step : l.step ≡ updated_view
    initial : l.initial ≡ (λ id. none)

  abbrev pub IsRead : List (Event (Payload A)) → ProjectorReg (Payload A) (Cache A) → Type 0
  IsRead log r = (id : String) → get id r.state ≡ replayed updated_view log (λ x. none) id

  cache-IsBuilding :
      (rows : List (Scanned B)) → IsBuilding (View A) IsCacheView [] [] (cache_projector rows)
  unfolding cache_laws cache_operations get
  cache-IsBuilding rows = record {
    laws = cache_laws encode decode rows;
    meant = record { readers = refl; step = refl; initial = refl };
    shown = refl;
    built = refl;
  }

  IsBuilding-IsRead :
      (log : List (Event (Payload A))) (r : ProjectorReg (Payload A) (Cache A))
      → IsBuilding (View A) IsCacheView log [] r
      → IsRead log r
  IsBuilding-IsRead log r b id =
      ap (λ g. g r.state id) (sym b.meant.readers)
      ∙ ap (λ v. v id) b.shown
      ∙ ap (λ f. replayed f log b.laws.initial id) b.meant.step
      ∙ ap (λ v. replayed updated_view log v id) b.meant.initial

  -- From an empty store with the state cache as its projector, after any calls of `Append` and
  -- `AppendBatch`, whichever of them fail and however the database answers: what the cache gives
  -- for each entity is what the events of the log, one by one, make of it.
  pub run_calls-IsRead :
      (rows : List (Scanned B)) (calls : List (Call (Payload A)))
      → (let s = run_calls calls (new_store (cache_projector rows ∷ [])) in
          AllSync (IsRead s.log) s.projectors)
  run_calls-IsRead rows calls =
      let s = run_calls calls (new_store (cache_projector rows ∷ [])) in
      AllSync-map (IsBuilding (View A) IsCacheView s.log []) (IsRead s.log)
        (IsBuilding-IsRead s.log) s.projectors
        (run_calls-IsConsistent (View A) IsCacheView calls (new_store (cache_projector rows ∷ []))
          (record {
            numbered = tt;
            last = refl;
            latest = refl;
            current = (λ t. cache-IsBuilding rows, tt);
          })).current
