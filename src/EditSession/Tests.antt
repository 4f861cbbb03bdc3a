-- ===== src/EditSession/Tests.antt =====
-- Runs of internal/editsession on small inputs, and the theorems at such inputs.
use gohome.Prelude.{ℕ, ◌≡◌, refl, true, false, List, [], ◌∷◌, some, arith, lookup, string_eq}
use gohome.EditSession.Locks.{
  LockManager, new_lock_manager_with_ttl, validate, Operation, do_acquire, do_heartbeat, do_sweep,
  run_all,
}
use gohome.EditSession.Locks.Entries.{leased}
use gohome.EditSession.Locks.Leases.{IsLease, run_all-IsLease}

-- two sessions on one file; the first is kept by a heartbeat, the second runs out and is swept
abbrev calls : List (ℕ × Operation)
calls =
    (10, do_acquire (some "a") "main.pkl")
    ∷ (12, do_acquire (some "b") "main.pkl")
    ∷ (35, do_heartbeat "a")
    ∷ (50, do_sweep)
    ∷ (52, do_heartbeat "b")
    ∷ []

abbrev manager : LockManager
manager = new_lock_manager_with_ttl 30

kept_run : validate 60 "a" (run_all calls manager) ≡ (true, false)
unfolding run_all validate new_lock_manager_with_ttl
kept_run = refl

swept_run : validate 60 "b" (run_all calls manager) ≡ (false, false)
unfolding run_all validate new_lock_manager_with_ttl
swept_run = refl

run_all-IsLease_example :
    IsLease "a" 60 (run_all calls manager) (leased "a" manager.ttl calls (lookup "a" manager.locks))
unfolding new_lock_manager_with_ttl
run_all-IsLease_example =
    run_all-IsLease "a" 0 60 calls manager tt
      (omega arith, (omega arith, (omega arith, (omega arith, (omega arith, omega arith)))))
