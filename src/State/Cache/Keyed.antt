-- ===== src/State/Cache/Keyed.antt =====
-- Each entity is in the cache once, under its own id.
use gohome.Prelude.{
  String, ◌≡◌, refl, sym, ◌∙◌, false, List, [], ◌∷◌, Option, none, some, arith, lookup, insert,
  erase, keys, contains, contains-keys-insert, contains-keys-erase, string_eq, eq_iff, ◌==◌,
  Bool-cases, inl, inr,
}
use gohome.State.Cache.{
  State, Event, Payload, state_changed, entity_registered, entity_unregistered, other, States,
  Cache, working, state_of, register, apply_payload, apply, promote, discard, apply_all,
}

module _ {A : Type 0} where
  abbrev pub IsKeyed : States A → Type 0
  IsKeyed [] = Unit
  IsKeyed ((k, s) ∷ m) = (s.entity_id ≡ k) × (contains (keys m) k ≡ false) × IsKeyed m

  insert-IsKeyed :
      (k : String) (s : State A) (m : States A)
      → s.entity_id ≡ k
      → IsKeyed m
      → IsKeyed (insert k s m)
  insert-IsKeyed k s [] e h = (e, refl, tt)
  insert-IsKeyed k s ((j, w) ∷ m) e (own, once, rest) = elim (Bool-cases (j == k)) [
    | inl same ↦ rw same (e, rw (sym ((eq_iff j k).0 same)) once, rest)
    | inr apart ↦ rw apart (
      own,
      contains-keys-insert k j s m ∙ ground (arith, eq_iff k j, eq_iff j k, once),
      insert-IsKeyed k s m e rest,
    )
  ]

  erase-IsKeyed : (k : String) (m : States A) → IsKeyed m → IsKeyed (erase k m)
  erase-IsKeyed k [] h = tt
  erase-IsKeyed k ((j, w) ∷ m) (own, once, rest) = elim (Bool-cases (j == k)) [
    | inl same ↦ rw same (erase-IsKeyed k m rest)
    | inr apart ↦ rw apart (own, contains-keys-erase k j m once, erase-IsKeyed k m rest)
  ]

  apply_payload-IsKeyed :
      (e : Event A) (p : Payload A) (m : States A) → IsKeyed m → IsKeyed (apply_payload e p m)
  unfolding apply_payload
  apply_payload-IsKeyed e (state_changed attributes) m h =
      insert-IsKeyed e.entity (state_of e attributes) m refl h
  apply_payload-IsKeyed e entity_unregistered m h = erase-IsKeyed e.entity m h
  apply_payload-IsKeyed e other m h = h
  apply_payload-IsKeyed e entity_registered m h = registered (lookup e.entity m)
    where
      registered : (o : Option (State A)) → IsKeyed (register e o m)
      registered (some s) = h
      registered none = insert-IsKeyed e.entity (state_of e none) m refl h

  -- both the map that is read and the one that a transaction builds
  pub record IsWellFormed (c : Cache A) : Type 0 where
    pub current : IsKeyed c.current
    pub working : IsKeyed (working c)

  apply-IsWellFormed : (e : Event A) (c : Cache A) → IsWellFormed c → IsWellFormed (apply e c)
  unfolding apply
  apply-IsWellFormed e c h = record {
    current = h.current;
    working = apply_payload-IsKeyed e e.payload (working c) h.working;
  }

  promote-IsWellFormed : (c : Cache A) → IsWellFormed c → IsWellFormed (promote c)
  unfolding promote
  promote-IsWellFormed c h = of_pending c.pending h.working
    where
      of_pending :
          (p : Option (States A))
          → IsKeyed (elim p [ none ↦ c.current | some m ↦ m ])
          → IsWellFormed (elim p [ none ↦ c | some m ↦ record { current = m; pending = none } ])
      of_pending none k = h
      of_pending (some m) k = record { current = k; working = k }

  -- Applying events, promoting and discarding keep each entity once and under its own id.
  pub apply_all-IsWellFormed :
      (es : List (Event A)) (c : Cache A)
      → IsWellFormed c
      → IsWellFormed (apply_all es c)
        × IsWellFormed (promote (apply_all es c))
        × IsWellFormed (discard (apply_all es c))
  unfolding apply_all discard
  apply_all-IsWellFormed [] c h =
      (h, promote-IsWellFormed c h, record { current = h.current; working = h.current })
  apply_all-IsWellFormed (e ∷ es) c h =
      apply_all-IsWellFormed es (apply e c) (apply-IsWellFormed e c h)
