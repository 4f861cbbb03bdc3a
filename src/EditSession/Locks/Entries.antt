-- ===== src/EditSession/Locks/Entries.antt =====
-- What one call does to the entry of one token.
use gohome.Prelude.{
  ℕ, ◌+◌, String, ◌≡◌, refl, subst, ap, ◌∙◌, inl, inr, false, not, List, [], ◌∷◌, Option, none,
  some, arith, lookup, lookup-insert, lookup-erase, lookup-none, insert, erase, keys, contains,
  contains-keys-insert, contains-keys-erase, keep_if, string_eq, eq_iff, ◌==◌, Bool-cases,
  if◌then◌else◌,
}
use gohome.EditSession.Locks.{
  LockEntry, LockManager, is_over, acquire, heartbeat, release, sweep, Operation, do_acquire,
  do_heartbeat, do_release, do_sweep, run,
}

-- the lease after its holder asks to keep it
abbrev pub renewed : ℕ → ℕ → Option LockEntry → Option LockEntry
renewed now ttl none = none
renewed now ttl (some entry) =
    if is_over now entry
    then some entry
    else some (record { file_path = entry.file_path; expires_at = now + ttl })

-- one call, for one token; a sweep changes nothing
abbrev pub lease_after : String → ℕ → ℕ → Operation → Option LockEntry → Option LockEntry
lease_after token ttl now (do_acquire none file_path) old = old
lease_after token ttl now (do_acquire (some fresh) file_path) old =
    if fresh == token then some (record { file_path = file_path; expires_at = now + ttl }) else old
lease_after token ttl now (do_heartbeat t) old = if t == token then renewed now ttl old else old
lease_after token ttl now (do_release t) old = if t == token then none else old
lease_after token ttl now do_sweep old = old

abbrev pub leased : String → ℕ → List (ℕ × Operation) → Option LockEntry → Option LockEntry
leased token ttl [] old = old
leased token ttl ((now, op) ∷ rest) old = leased token ttl rest (lease_after token ttl now op old)

-- what is left of an entry by a sweep
abbrev pub swept : ℕ → Option LockEntry → Option LockEntry
swept now none = none
swept now (some entry) = if is_over now entry then none else some entry

abbrev pub kept : String → ℕ → ℕ → Operation → Option LockEntry → Option LockEntry
kept token ttl now (do_acquire fresh file_path) old =
    lease_after token ttl now (do_acquire fresh file_path) old
kept token ttl now (do_heartbeat t) old = lease_after token ttl now (do_heartbeat t) old
kept token ttl now (do_release t) old = lease_after token ttl now (do_release t) old
kept token ttl now do_sweep old = swept now old

-- each token stands in the map once
abbrev pub IsMap : List (String × LockEntry) → Type 0
IsMap [] = Unit
IsMap ((k, v) ∷ m) = (contains (keys m) k ≡ false) × IsMap m

lookup-sweep :
    (token : String) (now : ℕ) (l : List (String × LockEntry))
    → IsMap l
    → lookup token (keep_if (λ p. not (is_over now p.1)) l) ≡ swept now (lookup token l)
lookup-sweep token now [] h = refl
lookup-sweep token now ((k, v) ∷ l) (once, rest) = elim (Bool-cases (k == token)) [
  | inl same ↦ ground (
    arith,
    lookup-sweep token now l rest,
    same,
    lookup-none token l (subst (λ x. contains (keys l) x ≡ false) ((eq_iff k token).0 same) once),
  )
  | inr apart ↦ ground (arith, lookup-sweep token now l rest, apart)
]

once-sweep :
    (k : String) (now : ℕ) (l : List (String × LockEntry))
    → contains (keys l) k ≡ false
    → contains (keys (keep_if (λ p. not (is_over now p.1)) l)) k ≡ false
once-sweep k now [] h = refl
once-sweep k now ((j, v) ∷ l) h = ground (arith, once-sweep k now l)

IsMap-sweep :
    (now : ℕ) (l : List (String × LockEntry))
    → IsMap l
    → IsMap (keep_if (λ p. not (is_over now p.1)) l)
IsMap-sweep now [] h = tt
IsMap-sweep now ((k, v) ∷ l) (once, rest) = elim (Bool-cases (is_over now v)) [
  | inl over ↦ rw over (IsMap-sweep now l rest)
  | inr live ↦ rw live (once-sweep k now l once, IsMap-sweep now l rest)
]

IsMap-insert :
    (k : String) (v : LockEntry) (l : List (String × LockEntry)) → IsMap l → IsMap (insert k v l)
IsMap-insert k v [] h = (refl, tt)
IsMap-insert k v ((j, w) ∷ l) (once, rest) = elim (Bool-cases (j == k)) [
  | inl same ↦ rw same (subst (λ x. contains (keys l) x ≡ false) ((eq_iff j k).0 same) once, rest)
  | inr apart ↦ rw apart (
    contains-keys-insert k j v l ∙ ground (arith, eq_iff k j, eq_iff j k, once),
    IsMap-insert k v l rest,
  )
]

IsMap-erase : (k : String) (l : List (String × LockEntry)) → IsMap l → IsMap (erase k l)
IsMap-erase k [] h = tt
IsMap-erase k ((j, w) ∷ l) (once, rest) = elim (Bool-cases (j == k)) [
  | inl same ↦ rw same (IsMap-erase k l rest)
  | inr apart ↦ rw apart (contains-keys-erase k j l once, IsMap-erase k l rest)
]

-- the map of a heartbeat, by the entry of its token
abbrev beaten :
    ℕ → ℕ → String → Option LockEntry → List (String × LockEntry) → List (String × LockEntry)
beaten now ttl t none l = l
beaten now ttl t (some entry) l =
    if is_over now entry
    then l
    else insert t (record { file_path = entry.file_path; expires_at = now + ttl }) l

locks-heartbeat :
    (now : ℕ) (t : String) (m : LockManager)
    → (heartbeat now t m).0.locks ≡ beaten now m.ttl t (lookup t m.locks) m.locks
unfolding heartbeat
locks-heartbeat now t m = ground arith

IsMap-beaten :
    (now ttl : ℕ) (t : String) (o : Option LockEntry) (l : List (String × LockEntry))
    → IsMap l
    → IsMap (beaten now ttl t o l)
IsMap-beaten now ttl t none l h = h
IsMap-beaten now ttl t (some entry) l h = elim (Bool-cases (is_over now entry)) [
  | inl over ↦ rw over h
  | inr live ↦ rw live (IsMap-insert t _ l h)
]

lookup-beaten :
    (now ttl : ℕ) (t token : String) (o : Option LockEntry) (l : List (String × LockEntry))
    → lookup t l ≡ o
    → lookup token (beaten now ttl t o l)
      ≡ (if t == token then renewed now ttl o else lookup token l)
lookup-beaten now ttl t token none l h = elim (Bool-cases (t == token)) [
  | inl same ↦ rw same (subst (λ x. lookup x l ≡ none) ((eq_iff t token).0 same) h)
  | inr apart ↦ rw apart refl
]
lookup-beaten now ttl t token (some entry) l h = elim (Bool-cases (is_over now entry)) [
  | inr live ↦ rw live (lookup-insert t token _ l)
  | inl over ↦ rw over (elim (Bool-cases (t == token)) [
    | inl same ↦ rw same (subst (λ x. lookup x l ≡ some entry) ((eq_iff t token).0 same) h)
    | inr apart ↦ rw apart refl
  ])
]

pub ttl-run : (now : ℕ) (op : Operation) (m : LockManager) → (run now op m).ttl ≡ m.ttl
unfolding run acquire heartbeat release sweep
ttl-run now (do_acquire none file_path) m = refl
ttl-run now (do_acquire (some fresh) file_path) m = refl
ttl-run now (do_heartbeat t) m = ground arith
ttl-run now (do_release t) m = refl
ttl-run now do_sweep m = refl

pub IsMap-run :
    (now : ℕ) (op : Operation) (m : LockManager) → IsMap m.locks → IsMap (run now op m).locks
unfolding run acquire release sweep
IsMap-run now (do_acquire none file_path) m h = h
IsMap-run now (do_acquire (some fresh) file_path) m h = IsMap-insert fresh _ m.locks h
IsMap-run now (do_heartbeat t) m h =
    rw (locks-heartbeat now t m) (IsMap-beaten now m.ttl t (lookup t m.locks) m.locks h)
IsMap-run now (do_release t) m h = IsMap-erase t m.locks h
IsMap-run now do_sweep m h = IsMap-sweep now m.locks h

pub lookup-run :
    (token : String) (now : ℕ) (op : Operation) (m : LockManager)
    → IsMap m.locks
    → lookup token (run now op m).locks ≡ kept token m.ttl now op (lookup token m.locks)
unfolding run acquire release sweep
lookup-run token now (do_acquire none file_path) m h = refl
lookup-run token now (do_acquire (some fresh) file_path) m h = lookup-insert fresh token _ m.locks
lookup-run token now (do_heartbeat t) m h =
    ap (lookup token) (locks-heartbeat now t m)
    ∙ lookup-beaten now m.ttl t token (lookup t m.locks) m.locks refl
    ∙ elim (Bool-cases (t == token)) [
      | inl same ↦
          rw same (ap (λ x. renewed now m.ttl (lookup x m.locks)) ((eq_iff t token).0 same))
      | inr apart ↦ rw apart refl
    ]
lookup-run token now (do_release t) m h = lookup-erase t token m.locks
lookup-run token now do_sweep m h = lookup-sweep token now m.locks h
