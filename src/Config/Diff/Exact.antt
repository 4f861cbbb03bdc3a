-- ===== src/Config/Diff/Exact.antt =====
-- The three lists of a diff, by membership.
use gohome.Prelude.{
  String, ◌≡◌, refl, ◌∙◌, Bool, true, false, not, ◌&&◌, List, [], ◌∷◌, Option, none, some, arith,
  lookup, insert, lookup-insert, contains, keys, any, string_eq, if◌then◌else◌, eq_iff, eq_refl,
  ◌==◌, Bool-cases, inl, inr,
}
use gohome.Config.Diff.{
  DriverInstance, ConfigSnapshot, ConfigDiff, index_hashes, added_in, changed_in, removed_in,
  ids_of, instances_of, diff,
}

abbrev pub is_known : Option String → Bool
is_known none = false
is_known (some h) = true

-- the hash that a map built from the list holds: that of the last instance with this id
abbrev pub last_hash : String → List DriverInstance → Option String → Option String
last_hash id [] found = found
last_hash id (di ∷ rest) found =
    last_hash id rest (if di.id == id then some di.config_hash else found)

lookup-index_hashes :
    (id : String) (l : List DriverInstance) (m : List (String × String))
    → lookup id (index_hashes l m) ≡ last_hash id l (lookup id m)
unfolding index_hashes
lookup-index_hashes id [] m = refl
lookup-index_hashes id (di ∷ rest) m =
    lookup-index_hashes id rest (insert di.id di.config_hash m)
    ∙ rw (lookup-insert di.id id di.config_hash m) refl

contains-keys :
    (id : String) (m : List (String × String)) → contains (keys m) id ≡ is_known (lookup id m)
contains-keys id [] = refl
contains-keys id ((k, v) ∷ m) = ground (arith, contains-keys id m)

contains-added_in :
    (old : List (String × String)) (l : List DriverInstance) (id : String)
    → contains (added_in old l) id ≡ (contains (ids_of l) id && not (is_known (lookup id old)))
unfolding added_in
contains-added_in old [] id = refl
contains-added_in old (di ∷ rest) id = elim (Bool-cases (di.id == id)) [
  | inl e ↦ rw ((eq_iff di.id id).0 e) (ground (arith, contains-added_in old rest id, eq_refl id))
  | inr ne ↦ ground (arith, contains-added_in old rest id)
]

contains-removed_in :
    (next_ids l : List String) (id : String)
    → contains (removed_in next_ids l) id ≡ (contains l id && not (contains next_ids id))
unfolding removed_in
contains-removed_in next_ids [] id = refl
contains-removed_in next_ids (k ∷ rest) id = elim (Bool-cases (k == id)) [
  | inl e ↦
      rw ((eq_iff k id).0 e) (ground (arith, contains-removed_in next_ids rest id, eq_refl id))
  | inr ne ↦ ground (arith, contains-removed_in next_ids rest id)
]

abbrev pub differs : Option String → String → Bool
differs none hash = false
differs (some h) hash = not (h == hash)

contains-changed_in :
    (old : List (String × String)) (l : List DriverInstance) (id : String)
    → contains (changed_in old l) id
      ≡ any (λ di. di.id == id && differs (lookup id old) di.config_hash) l
unfolding changed_in
contains-changed_in old [] id = refl
contains-changed_in old (di ∷ rest) id = elim (Bool-cases (di.id == id)) [
  | inl e ↦ rw ((eq_iff di.id id).0 e) (ground (arith, contains-changed_in old rest id, eq_refl id))
  | inr ne ↦ ground (arith, contains-changed_in old rest id)
]

pub record IsDiff (old : Option ConfigSnapshot) (next : ConfigSnapshot) (d : ConfigDiff)
    : Type 0 where
  pub added :
      (id : String)
      → contains d.driver_instances_added id ≡ (
          contains (ids_of next.driver_instances) id
          && not (is_known (last_hash id (instances_of old) none)))
  pub removed :
      (id : String)
      → contains d.driver_instances_removed id ≡ (
          is_known (last_hash id (instances_of old) none)
          && not (contains (ids_of next.driver_instances) id))
  pub changed :
      (id : String)
      → contains d.driver_instances_changed id
        ≡ any
            (λ di. di.id == id && differs (last_hash id (instances_of old) none) di.config_hash)
            next.driver_instances

-- An id is listed as added exactly if the next snapshot has it and the old one has not, as removed
-- exactly if the old one has it and the next one has not, and as changed exactly if the next one
-- has it with a hash that differs from the last one of the old snapshot.
pub diff-IsDiff :
    (old : Option ConfigSnapshot) (next : ConfigSnapshot) → IsDiff old next (diff old next)
unfolding diff
diff-IsDiff old next = record {
  added = λ id.
      rw
        (
          contains-added_in (index_hashes (instances_of old) []) next.driver_instances id,
          lookup-index_hashes id (instances_of old) [],
        )
        refl;
  removed = λ id.
      rw
        (
          contains-removed_in (ids_of next.driver_instances)
              (keys (index_hashes (instances_of old) [])) id,
          contains-keys id (index_hashes (instances_of old) []),
          lookup-index_hashes id (instances_of old) [],
        )
        refl;
  changed = λ id.
      rw
        (
          contains-changed_in (index_hashes (instances_of old) []) next.driver_instances id,
          lookup-index_hashes id (instances_of old) [],
        )
        refl;
}
