-- ===== src/EditSession/Locks.antt =====
-- internal/editsession/locks.go. The clock is a number of nanoseconds that each call is given, and
-- `newToken` the result of the random generator: a token, or none where it fails. The ticker of
-- `StartSweep` only calls `sweep`.
pub mod Entries
pub mod Leases
use gohome.Prelude.{
  ℕ, ◌+◌, String, Bool, true, false, List, [], ◌∷◌, Option, none, some, ltb, lookup, insert, erase,
  keep_if, not, string_eq, if◌then◌else◌,
}

pub record LockEntry : Type 0 where
  pub file_path : String
  pub expires_at : ℕ

pub record LockManager : Type 0 where
  pub ttl : ℕ
  pub locks : List (String × LockEntry)

unfoldable pub new_lock_manager_with_ttl : ℕ → LockManager
new_lock_manager_with_ttl ttl = record { ttl = ttl; locks = [] }

-- thirty minutes
unfoldable pub new_lock_manager : LockManager
unfolding new_lock_manager_with_ttl
new_lock_manager = new_lock_manager_with_ttl 1800000000000

-- `time.Now().After(entry.expiresAt)`
abbrev pub is_over : ℕ → LockEntry → Bool
is_over now entry = ltb entry.expires_at now

unfoldable pub acquire : ℕ → Option String → String → LockManager → LockManager × Option String
acquire now none file_path m = (m, none)
acquire now (some token) file_path m = (
  record {
    ttl = m.ttl;
    locks = insert token (record { file_path = file_path; expires_at = now + m.ttl }) m.locks;
  },
  some token,
)

unfoldable pub validate : ℕ → String → LockManager → Bool × Bool
validate now token m = elim (lookup token m.locks) [
  | none ↦ (false, false)
  | some entry ↦ if is_over now entry then (false, true) else (true, false)
]

unfoldable pub file_path_of : ℕ → String → LockManager → Option String
file_path_of now token m = elim (lookup token m.locks) [
  | none ↦ none
  | some entry ↦ if is_over now entry then none else some (entry.file_path)
]

-- whether the heartbeat succeeds; else it returns ErrLockExpired
unfoldable pub heartbeat : ℕ → String → LockManager → LockManager × Bool
heartbeat now token m = elim (lookup token m.locks) [
  | none ↦ (m, false)
  | some entry ↦
      (if is_over now entry then (m, false) else (
        record {
          ttl = m.ttl;
          locks =
              insert token (record { file_path = entry.file_path; expires_at = now + m.ttl })
                m.locks;
        },
        true,
      ))
]

unfoldable pub release : String → LockManager → LockManager
release token m = record { ttl = m.ttl; locks = erase token m.locks }

unfoldable pub sweep : ℕ → LockManager → LockManager
sweep now m = record { ttl = m.ttl; locks = keep_if (λ p. not (is_over now p.1)) m.locks }

-- one call of the manager, with what it reads from the clock and the random generator
pub data Operation : Type 0 where
  do_acquire : Option String → String → Operation
  do_heartbeat do_release : String → Operation
  do_sweep : Operation

unfoldable pub run : ℕ → Operation → LockManager → LockManager
unfolding acquire heartbeat release sweep
run now (do_acquire fresh file_path) m = (acquire now fresh file_path m).0
run now (do_heartbeat token) m = (heartbeat now token m).0
run now (do_release token) m = release token m
run now do_sweep m = sweep now m

-- calls at increasing moments
unfoldable pub run_all : List (ℕ × Operation) → LockManager → LockManager
unfolding run
run_all [] m = m
run_all ((now, op) ∷ rest) m = run_all rest (run now op m)
