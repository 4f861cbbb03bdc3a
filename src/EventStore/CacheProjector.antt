-- ===== src/EventStore/CacheProjector.antt =====
-- internal/state/cache.go as a projector of internal/eventstore: the methods that the store calls,
-- with the laws of a projector.
use gohome.Prelude.{
  ℕ, String, ◌≡◌, refl, sym, ap, ◌∙◌, Bool, true, false, List, [], ◌∷◌, Option, none, some, arith,
  string_eq, ◌==◌, if◌then◌else◌, lookup,
}
use mathlib.Core.Path.{fun_ext}
use gohome.EventStore.Event.{Event}
use gohome.EventStore.Projector.{Operations, Laws, replayed}
use gohome.State.Cache.{
  State, Payload, state_changed, entity_registered, entity_unregistered, other, Cache, Snapshot,
  Scanned, RestoreResult, position_of, read_failed, unknown_encoding, get, working, apply, promote,
  discard, restore,
}
use gohome.State.Cache.{Event as CacheEvent}
use gohome.State.Cache.Transaction.{updated, lookup-apply_payload, current-promote}

-- what a reader gets for each entity
abbrev pub View : Type 0 → Type 0
View A = String → Option (State A)

module _ {A : Type 0} where
  -- an event of the log as the cache reads it; every row has a timestamp
  abbrev pub read_event : Event (Payload A) → CacheEvent A
  read_event e = record {
    entity = e.entity;
    timestamp = elim e.timestamp [ none ↦ 0 | some t ↦ t ];
    source = e.source;
    payload = elim e.payload [ none ↦ other | some p ↦ p ];
  }

  abbrev pub updated_view : Event (Payload A) → View A → View A
  updated_view e v id =
      if e.entity == id then updated (read_event e) (read_event e).payload (v id) else v id

  -- A sequence of events fixes the state of an entity, or keeps the one that it has.
  data Effect (f : Option (State A) → Option (State A)) : Type 0 where
    fixes : (r : Option (State A)) → ((o : Option (State A)) → f o ≡ r) → Effect f
    keeps : ((s : State A) → f (some s) ≡ some s) → Effect f

  Effect-again :
      (f : Option (State A) → Option (State A)) → Effect f → (o : Option (State A)) → f (f o) ≡ f o
  Effect-again f (fixes r h) o = h (f o) ∙ sym (h o)
  Effect-again f (keeps h) (some s) = ap f (h s)
  Effect-again f (keeps h) none = of_none (f none) refl
    where
      of_none : (r : Option (State A)) → f none ≡ r → f r ≡ r
      of_none none e = e
      of_none (some s) e = h s

  Effect-then :
      (f g : Option (State A) → Option (State A)) → Effect f → Effect g → Effect (λ o. g (f o))
  Effect-then f g (fixes r h) k = fixes (g r) (λ o. ap g (h o))
  Effect-then f g (keeps h) (fixes r k) = fixes r (λ o. k (f o))
  Effect-then f g (keeps h) (keeps k) = keeps (λ s. ap g (h s) ∙ k s)

  updated-Effect : (e : CacheEvent A) (p : Payload A) → Effect (updated e p)
  updated-Effect e (state_changed attributes) = fixes _ (λ o. refl)
  updated-Effect e entity_registered = keeps (λ s. refl)
  updated-Effect e entity_unregistered = fixes none (λ o. refl)
  updated-Effect e other = keeps (λ s. refl)

  -- the state of one entity after a replay
  abbrev replayed_at : String → List (Event (Payload A)) → Option (State A) → Option (State A)
  replayed_at id [] o = o
  replayed_at id (e ∷ es) o =
      replayed_at id es
        (if e.entity == id then updated (read_event e) (read_event e).payload o else o)

  replayed-replayed_at :
      (id : String) (es : List (Event (Payload A))) (v : View A)
      → replayed updated_view es v id ≡ replayed_at id es (v id)
  replayed-replayed_at id [] v = refl
  replayed-replayed_at id (e ∷ es) v = replayed-replayed_at id es (updated_view e v)

  step-Effect :
      (b : Bool) (e : CacheEvent A) (p : Payload A) → Effect (λ o. if b then updated e p o else o)
  step-Effect true e p = updated-Effect e p
  step-Effect false e p = keeps (λ s. refl)

  replayed_at-Effect : (id : String) (es : List (Event (Payload A))) → Effect (replayed_at id es)
  replayed_at-Effect id [] = keeps (λ s. refl)
  replayed_at-Effect id (e ∷ es) =
      Effect-then _ (replayed_at id es)
        (step-Effect (e.entity == id) (read_event e) (read_event e).payload)
        (replayed_at-Effect id es)

  pub replayed-again :
      (es : List (Event (Payload A))) (v : View A)
      → replayed updated_view es (replayed updated_view es v) ≡ replayed updated_view es v
  replayed-again es v = fun_ext (λ id.
      replayed-replayed_at id es (replayed updated_view es v)
      ∙ ap (replayed_at id es) (replayed-replayed_at id es v)
      ∙ Effect-again (replayed_at id es) (replayed_at-Effect id es) (v id)
      ∙ sym (replayed-replayed_at id es v))

pub some-injective {ℓ} : {X : Type ℓ} {x y : X} → some x ≡ some y → x ≡ y
some-injective h = cc

pub working-promote : {A : Type 0} (c : Cache A) → working (promote c) ≡ working c
unfolding promote
working-promote c = ground arith

module _ {A B : Type 0} (encode : Snapshot A → B) (decode : B → Option (Snapshot A)) where
  abbrev pub restored : Cache A × RestoreResult × ℕ → Option (Cache A × ℕ)
  restored (c, position_of pos, reports) = some (c, pos)
  restored (c, read_failed, reports) = none
  restored (c, unknown_encoding why, reports) = none

  -- The cache as the store calls it, where the table holds the snapshots `rows`.
  unfoldable pub cache_operations : List (Scanned B) → Operations (Payload A) (Cache A)
  unfolding apply promote discard restore
  cache_operations rows = record {
    apply = λ e c. some (apply (read_event e) c);
    apply_error = λ e c. "";
    promote = promote;
    discard = discard;
    restore = λ c. restored (restore encode decode (some rows) true c);
  }

  -- The state cache as the store wants it: while a transaction applies events its
  -- readers see what they saw, `Promote` shows them what the events make of that and `Discard`
  -- drops it, and events that are applied again change nothing.
  unfoldable pub cache_laws :
      (rows : List (Scanned B)) → Laws (Payload A) (Cache A) (View A) (cache_operations rows)
  unfolding cache_operations apply promote discard get
  cache_laws rows = record {
    initial = λ id. none;
    readers = λ c id. get id c;
    built = λ c id. lookup id (working c);
    step = updated_view;
    apply-built = λ e s s' h. fun_ext (λ id.
        rw (← some-injective h)
          (lookup-apply_payload id (read_event e) (read_event e).payload (working s)));
    apply-readers = λ e s s' h. fun_ext (λ id. rw (← some-injective h) refl);
    promote-readers = λ s. fun_ext (λ id. ap (lookup id) (current-promote s));
    promote-built = λ s. fun_ext (λ id. ap (lookup id) (working-promote s));
    discard-readers = λ s. refl;
    discard-built = λ s. refl;
    again = replayed-again;
  }
