-- ===== src/EditSession/Locks/Leases.antt =====
-- The lease of one token, whatever the others do and whenever the sweep runs.
use gohome.Prelude.{
  ℕ, ◌≤◌, String, ◌≡◌, refl, sym, subst, ap, ◌∙◌, ◌⊎◌, inl, inr, Bool, false, not, List, [], ◌∷◌,
  Option, none, some, arith, lookup, string_eq, ◌==◌, Bool-cases, if◌then◌else◌,
}
use gohome.EditSession.Locks.Entries.{
  renewed, lease_after, leased, swept, kept, IsMap, ttl-run, IsMap-run, lookup-run,
}
use gohome.EditSession.Locks.{
  LockEntry, LockManager, is_over, validate, file_path_of, heartbeat, Operation, do_acquire,
  do_heartbeat, do_release, do_sweep, run, run_all,
}

abbrev pub is_live : ℕ → Option LockEntry → Bool
is_live now none = false
is_live now (some entry) = not (is_over now entry)

-- the map holds the lease, or the lease is over and swept
abbrev Agrees : ℕ → Option LockEntry → Option LockEntry → Type 0
Agrees now held lease = (held ≡ lease) ⊎ ((held ≡ none) × (is_live now lease ≡ false))

Agrees-later :
    (now later : ℕ) (held lease : Option LockEntry)
    → now ≤ later
    → Agrees now held lease
    → Agrees later held lease
Agrees-later now later held lease le (inl e) = inl e
Agrees-later now later held none le (inr (e, over)) = inr (e, refl)
Agrees-later now later held (some entry) le (inr (e, over)) = inr (e, ground arith)

Agrees-renewed :
    (ttl now : ℕ) (held lease : Option LockEntry)
    → Agrees now held lease
    → Agrees now (renewed now ttl held) (renewed now ttl lease)
Agrees-renewed ttl now held lease (inl e) = inl (ap (renewed now ttl) e)
Agrees-renewed ttl now held none (inr (e, over)) = inr (ap (renewed now ttl) e, refl)
Agrees-renewed ttl now held (some entry) (inr (e, over)) = elim (Bool-cases (is_over now entry)) [
  | inl o ↦ rw o (inr (ap (renewed now ttl) e, rw o refl))
  | inr live ↦ absurd (ground (arith, live, over))
]

Agrees-swept :
    (now : ℕ) (held lease : Option LockEntry)
    → Agrees now held lease
    → Agrees now (swept now held) lease
Agrees-swept now held lease (inr (e, over)) = inr (ap (swept now) e, over)
Agrees-swept now held none (inl e) = inl (ap (swept now) e)
Agrees-swept now held (some entry) (inl e) = elim (Bool-cases (is_over now entry)) [
  | inl over ↦ inr (ap (swept now) e ∙ rw over refl, rw over refl)
  | inr live ↦ inl (ap (swept now) e ∙ rw live refl)
]

Agrees-step :
    (token : String) (ttl now : ℕ) (op : Operation) (held lease : Option LockEntry)
    → Agrees now held lease
    → Agrees now (kept token ttl now op held) (lease_after token ttl now op lease)
Agrees-step token ttl now (do_acquire none file_path) held lease h = h
Agrees-step token ttl now (do_acquire (some fresh) file_path) held lease h =
    elim (Bool-cases (fresh == token)) [ inl same ↦ rw same (inl refl) | inr apart ↦ rw apart h ]
Agrees-step token ttl now (do_heartbeat t) held lease h = elim (Bool-cases (t == token)) [
  | inl same ↦ rw same (Agrees-renewed ttl now held lease h)
  | inr apart ↦ rw apart h
]
Agrees-step token ttl now (do_release t) held lease h = elim (Bool-cases (t == token)) [
  | inl same ↦ rw same (inl refl)
  | inr apart ↦ rw apart h
]
Agrees-step token ttl now do_sweep held lease h = Agrees-swept now held lease h

-- the moments of the calls do not go back, from the first moment to the last
abbrev pub IsOrdered : ℕ → List (ℕ × Operation) → ℕ → Type 0
IsOrdered start [] end = start ≤ end
IsOrdered start ((now, op) ∷ rest) end = (start ≤ now) × IsOrdered now rest end

Agrees-run_all :
    (token : String) (ttl start end : ℕ) (ops : List (ℕ × Operation)) (m : LockManager)
    (lease : Option LockEntry)
    → m.ttl ≡ ttl
    → IsMap m.locks
    → IsOrdered start ops end
    → Agrees start (lookup token m.locks) lease
    → Agrees end (lookup token (run_all ops m).locks) (leased token ttl ops lease)
unfolding run_all
Agrees-run_all token ttl start end [] m lease e h le a =
    Agrees-later start end (lookup token m.locks) lease le a
Agrees-run_all token ttl start end ((now, op) ∷ rest) m lease e h (le, ordered) a =
    Agrees-run_all token ttl now end rest (run now op m) (lease_after token ttl now op lease)
      (ttl-run now op m ∙ e) (IsMap-run now op m h) ordered
      (subst (λ x. Agrees now x (lease_after token ttl now op lease))
        (sym (lookup-run token now op m h ∙ ap (λ w. kept token w now op (lookup token m.locks)) e))
        (Agrees-step token ttl now op (lookup token m.locks) lease
          (Agrees-later start now (lookup token m.locks) lease le a)))

-- the path of a lease that is not over
abbrev pub path_of : ℕ → Option LockEntry → Option String
path_of now none = none
path_of now (some entry) = if is_over now entry then none else some entry.file_path

-- what the calls at the moment `now` tell of a token
pub record IsLease (token : String) (now : ℕ) (m : LockManager) (lease : Option LockEntry)
    : Type 0 where
  pub valid : (validate now token m).0 ≡ is_live now lease
  pub path : file_path_of now token m ≡ path_of now lease
  pub beats : (heartbeat now token m).1 ≡ is_live now lease

Agrees-is_live :
    (now : ℕ) (held lease : Option LockEntry)
    → Agrees now held lease
    → is_live now held ≡ is_live now lease
Agrees-is_live now held lease (inl e) = ap (is_live now) e
Agrees-is_live now held lease (inr (e, over)) = ap (is_live now) e ∙ sym over

Agrees-path_of :
    (now : ℕ) (held lease : Option LockEntry)
    → Agrees now held lease
    → path_of now held ≡ path_of now lease
Agrees-path_of now held lease (inl e) = ap (path_of now) e
Agrees-path_of now held none (inr (e, over)) = ap (path_of now) e
Agrees-path_of now held (some entry) (inr (e, over)) = ap (path_of now) e ∙ ground (arith, over)

IsLease-own :
    (token : String) (now : ℕ) (m : LockManager) → IsLease token now m (lookup token m.locks)
unfolding validate file_path_of heartbeat
IsLease-own token now m = record { valid = ground arith; path = ground arith; beats = ground arith }

IsLease-held :
    (token : String) (now : ℕ) (m : LockManager) (lease : Option LockEntry)
    → Agrees now (lookup token m.locks) lease
    → IsLease token now m lease
IsLease-held token now m lease h =
    let own = IsLease-own token now m in
    let live = Agrees-is_live now (lookup token m.locks) lease h in
    record {
      valid = own.valid ∙ live;
      path = own.path ∙ Agrees-path_of now (lookup token m.locks) lease h;
      beats = own.beats ∙ live;
    }

-- From a map in which each token stands once, through any calls in the order of time: whether a
-- token is valid, its path, and whether its heartbeat succeeds depend only on the calls about this
-- token, and not on when the sweep runs: a lease lasts until its release, or one TTL after it was
-- acquired or last kept by a heartbeat in time.
pub run_all-IsLease :
    (token : String) (start now : ℕ) (ops : List (ℕ × Operation)) (m : LockManager)
    → IsMap m.locks
    → IsOrdered start ops now
    → IsLease token now (run_all ops m) (leased token m.ttl ops (lookup token m.locks))
run_all-IsLease token start now ops m h ordered =
    IsLease-held token now (run_all ops m) _
      (Agrees-run_all token m.ttl start now ops m (lookup token m.locks) refl h ordered (inl refl))
