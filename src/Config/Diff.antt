-- ===== src/Config/Diff.antt =====
-- internal/config/diff.go. Of a snapshot only what `Diff` reads is modelled: the driver instances
-- with their hashes, and how many automations and dashboards there are.
pub mod Exact
use gohome.Prelude.{
  ℕ, suc, ◌-◌, String, Bool, true, false, not, ◌&&◌, List, [], ◌∷◌, ◌++◌, Option, none, some, leb,
  eqb, lookup, insert, contains, add, keys, length, string_eq, if◌then◌else◌,
}

-- a Go int; `negsuc n` is -(n + 1)
pub data ℤ : Type 0 where
  pos : ℕ → ℤ
  negsuc : ℕ → ℤ

abbrev pub sub_ℕ : ℕ → ℕ → ℤ
sub_ℕ a b = if leb b a then pos (a - b) else negsuc (b - a - 1)

pub record DriverInstance : Type 0 where
  pub id : String
  pub config_hash : String

pub record ConfigSnapshot : Type 0 where
  pub driver_instances : List DriverInstance
  pub automations : ℕ
  pub dashboards : ℕ

pub record ConfigDiff : Type 0 where
  pub driver_instances_added : List String
  pub driver_instances_removed : List String
  pub driver_instances_changed : List String
  pub automations_changed : ℤ
  pub dashboards_changed : ℤ

-- the map `oldInsts`
unfoldable pub index_hashes : List DriverInstance → List (String × String) → List (String × String)
index_hashes [] m = m
index_hashes (di ∷ rest) m = index_hashes rest (insert di.id di.config_hash m)

-- the loop over the next instances, one list of its result each
unfoldable pub added_in : List (String × String) → List DriverInstance → List String
added_in old [] = []
added_in old (di ∷ rest) =
    let later = added_in old rest in
    elim (lookup di.id old) [ none ↦ di.id ∷ later | some h ↦ later ]

unfoldable pub changed_in : List (String × String) → List DriverInstance → List String
changed_in old [] = []
changed_in old (di ∷ rest) =
    let later = changed_in old rest in
    elim (lookup di.id old) [
      | none ↦ later
      | some h ↦ if not (string_eq.beq h di.config_hash) then di.id ∷ later else later
    ]

abbrev pub ids_of : List DriverInstance → List String
ids_of [] = []
ids_of (di ∷ rest) = di.id ∷ ids_of rest

-- the loop over `oldInsts`
unfoldable pub removed_in : List String → List String → List String
removed_in next_ids [] = []
removed_in next_ids (id ∷ rest) =
    let later = removed_in next_ids rest in if not (contains next_ids id) then id ∷ later else later

abbrev pub changed_count : ℕ → ℕ → ℤ
changed_count next old = if not (eqb next old) then sub_ℕ next old else pos 0

abbrev pub instances_of : Option ConfigSnapshot → List DriverInstance
instances_of none = []
instances_of (some s) = s.driver_instances

abbrev pub count_of : (ConfigSnapshot → ℕ) → Option ConfigSnapshot → ℕ
count_of f none = 0
count_of f (some s) = f s

unfoldable pub diff : Option ConfigSnapshot → ConfigSnapshot → ConfigDiff
unfolding index_hashes added_in changed_in removed_in
diff old next =
    let old_insts = index_hashes (instances_of old) [] in
    record {
      driver_instances_added = added_in old_insts next.driver_instances;
      driver_instances_removed = removed_in (ids_of next.driver_instances) (keys old_insts);
      driver_instances_changed = changed_in old_insts next.driver_instances;
      automations_changed = changed_count next.automations (count_of (λ s. s.automations) old);
      dashboards_changed = changed_count next.dashboards (count_of (λ s. s.dashboards) old);
    }
