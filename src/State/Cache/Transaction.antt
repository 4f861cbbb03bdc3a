-- ===== src/State/Cache/Transaction.antt =====
-- What a transaction of events does to the readers of the cache.
use gohome.Prelude.{
  String, ◌≡◌, refl, sym, subst, ap, ◌∙◌, true, false, List, [], ◌∷◌, Option, none, some, arith,
  lookup, lookup-insert, lookup-erase, string_eq, eq_iff, ◌==◌, if◌then◌else◌, Bool-cases, inl, inr,
}
use gohome.State.Cache.{
  State, Event, Payload, state_changed, entity_registered, entity_unregistered, other, States,
  Cache, get, working, state_of, register, apply_payload, apply, promote, discard, apply_all,
}

module _ {A : Type 0} where
  -- the state of one entity after an event about it
  abbrev pub updated : Event A → Payload A → Option (State A) → Option (State A)
  updated e (state_changed attributes) old = some (state_of e attributes)
  updated e entity_registered none = some (state_of e none)
  updated e entity_registered (some s) = some s
  updated e entity_unregistered old = none
  updated e other old = old

  -- the state of one entity after events, by those about it
  abbrev pub projected : String → List (Event A) → Option (State A) → Option (State A)
  projected id [] old = old
  projected id (e ∷ es) old =
      projected id es (if e.entity == id then updated e e.payload old else old)

  lookup-register :
      (id : String) (e : Event A) (m : States A) (o : Option (State A))
      → lookup e.entity m ≡ o
      → lookup id (register e o m)
        ≡ (if e.entity == id then updated e entity_registered (lookup id m) else lookup id m)
  lookup-register id e m o h = elim (Bool-cases (e.entity == id)) [
    | inl same ↦
        rw (same, subst (λ x. lookup x m ≡ o) ((eq_iff e.entity id).0 same) h)
          (known o same (subst (λ x. lookup x m ≡ o) ((eq_iff e.entity id).0 same) h))
    | inr apart ↦ rw apart (others o apart)
  ]
    where
      known :
          (o : Option (State A))
          → (e.entity == id) ≡ true
          → lookup id m ≡ o
          → lookup id (register e o m) ≡ updated e entity_registered o
      known (some s) same h = h
      known none same h = lookup-insert e.entity id (state_of e none) m ∙ rw same refl

      others :
          (o : Option (State A))
          → (e.entity == id) ≡ false
          → lookup id (register e o m) ≡ lookup id m
      others (some s) apart = refl
      others none apart = lookup-insert e.entity id (state_of e none) m ∙ rw apart refl

  pub lookup-apply_payload :
      (id : String) (e : Event A) (p : Payload A) (m : States A)
      → lookup id (apply_payload e p m)
        ≡ (if e.entity == id then updated e p (lookup id m) else lookup id m)
  unfolding apply_payload
  lookup-apply_payload id e (state_changed attributes) m =
      lookup-insert e.entity id (state_of e attributes) m
  lookup-apply_payload id e entity_unregistered m = lookup-erase e.entity id m
  lookup-apply_payload id e other m = ground arith
  lookup-apply_payload id e entity_registered m = lookup-register id e m (lookup e.entity m) refl

  working-apply_all :
      (id : String) (es : List (Event A)) (c : Cache A)
      → lookup id (working (apply_all es c)) ≡ projected id es (lookup id (working c))
  unfolding apply_all
  working-apply_all id [] c = refl
  working-apply_all id (e ∷ es) c =
      working-apply_all id es (apply e c)
      ∙ ap (projected id es) (lookup-apply_payload id e e.payload (working c))

  current-apply_all : (es : List (Event A)) (c : Cache A) → (apply_all es c).current ≡ c.current
  unfolding apply_all
  current-apply_all [] c = refl
  current-apply_all (e ∷ es) c = current-apply_all es (apply e c)

  pub current-promote : (c : Cache A) → (promote c).current ≡ working c
  unfolding promote
  current-promote c = ground arith

  abbrev with_pending : States A → Option (States A) → Cache A
  with_pending m p = record { current = m; pending = p }

  pub record IsTransaction (es : List (Event A)) (c : Cache A) : Type 0 where
    pub during : (id : String) → get id (apply_all es c) ≡ get id c
    pub rolled_back : discard (apply_all es c) ≡ c
    pub committed : (id : String) → get id (promote (apply_all es c)) ≡ projected id es (get id c)

  -- Between transactions, the events of one do not change what a reader gets until it is promoted;
  -- a discard leaves the cache as it was; after a promote, an entity has the state that the events
  -- about it, in order, make of its old one.
  pub apply_all-IsTransaction :
      (es : List (Event A)) (c : Cache A) → c.pending ≡ none → IsTransaction es c
  unfolding get discard
  apply_all-IsTransaction es c idle = record {
    during = λ id. ap (lookup id) (current-apply_all es c);
    rolled_back = rw (current-apply_all es c) (ap (with_pending c.current) (sym idle));
    committed = λ id.
        ap (lookup id) (current-promote (apply_all es c))
        ∙ rw (working-apply_all id es c, idle) refl;
  }
