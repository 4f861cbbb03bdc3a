-- ===== src/State/Tests.antt =====
-- Runs of internal/state on small inputs, and the theorems at such inputs.
use gohome.Prelude.{String, ◌≡◌, refl, true, List, [], ◌∷◌, Option, none, some}
use gohome.State.Cache.{
  Event, state_changed, entity_registered, entity_unregistered, Cache, empty, Snapshot, Scanned,
  scanned, snapshot_row, promote, discard, apply_all, restore,
}
use gohome.State.Cache.Transaction.{IsTransaction, apply_all-IsTransaction}
use gohome.State.Cache.Keyed.{IsWellFormed, apply_all-IsWellFormed}
use gohome.State.Cache.Restoring.{IsRestored, restore-snapshot_row}

abbrev hall_events : List (Event String)
hall_events =
    record { entity = "light.hall"; timestamp = 1; source = "hue"; payload = entity_registered }
    ∷ record { entity = "lock.door"; timestamp = 2; source = "zwave"; payload = entity_registered }
    ∷ record {
      entity = "light.hall";
      timestamp = 3;
      source = "hue";
      payload = state_changed (some "on");
    }
    ∷ record { entity = "light.hall"; timestamp = 4; source = "hue"; payload = entity_registered }
    ∷ record {
      entity = "lock.door";
      timestamp = 5;
      source = "zwave";
      payload = entity_unregistered;
    }
    ∷ []

committed_run :
    (promote (apply_all hall_events empty)).current
    ≡ (
      "light.hall",
      record {
        entity_id = "light.hall";
        updated_at = 3;
        updated_by = "hue";
        attributes = some "on";
      },
    )
      ∷ []
unfolding apply_all promote
committed_run = refl

apply_all-IsTransaction_example : IsTransaction hall_events empty
apply_all-IsTransaction_example = apply_all-IsTransaction hall_events empty refl

empty_formed : IsWellFormed {A = String} empty
empty_formed = record { current = tt; working = tt }

apply_all-IsWellFormed_example :
    IsWellFormed (apply_all hall_events empty)
    × IsWellFormed (promote (apply_all hall_events empty))
    × IsWellFormed (discard (apply_all hall_events empty))
apply_all-IsWellFormed_example = apply_all-IsWellFormed hall_events empty empty_formed

abbrev saved_cache : Cache String
saved_cache = promote (apply_all hall_events empty)

saved_formed : IsWellFormed saved_cache
saved_formed = (apply_all-IsWellFormed hall_events empty empty_formed).1

-- an encoding that keeps the snapshot, and one blob that is damaged
abbrev encode : Snapshot String → Option (Snapshot String)
encode s = some s

abbrev decode : Option (Snapshot String) → Option (Snapshot String)
decode blob = blob

abbrev damaged : Scanned (Option (Snapshot String))
damaged = scanned (record { position = 9; encoding = "protobuf+zstd"; state = none })

restore-snapshot_row_example :
    IsRestored encode decode saved_cache
      (some 5)
      (restore encode decode
        (some (damaged ∷ scanned (snapshot_row encode decode 7 (some 5) saved_cache) ∷ []))
        true
        empty)
      1
restore-snapshot_row_example =
    restore-snapshot_row encode decode (λ s. refl) saved_cache empty 7 (some 5) (damaged ∷ []) []
      true saved_formed refl
