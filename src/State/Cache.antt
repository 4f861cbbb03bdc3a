-- ===== src/State/Cache.antt =====
-- internal/state/cache.go. The immutable map is an association list in its iteration order. The
-- attributes of an entity, which the cache only passes on, are a type of the caller; `proto.Clone`
-- is the identity on values. The encoding of a snapshot (protobuf and zstd) is a parameter.
pub mod Transaction
pub mod Keyed
pub mod Restoring
use gohome.Prelude.{
  ℕ, suc, ◌+◌, String, Bool, true, false, not, List, [], ◌∷◌, Option, none, some, lookup, insert,
  erase, length, string_eq, ◌==◌, if◌then◌else◌,
}

pub record State (A : Type 0) : Type 0 where
  pub entity_id : String
  pub updated_at : ℕ
  pub updated_by : String
  pub attributes : Option A

pub data Payload (A : Type 0) : Type 0 where
  state_changed : Option A → Payload A
  entity_registered entity_unregistered other : Payload A

pub record Event (A : Type 0) : Type 0 where
  pub entity : String
  pub timestamp : ℕ
  pub source : String
  pub payload : Payload A

abbrev pub States : Type 0 → Type 0
States A = List (String × State A)

pub record Cache (A : Type 0) : Type 0 where
  pub current : States A
  pub pending : Option (States A)

-- the row of the `snapshots` table, with its owner
pub record Row (B : Type 0) : Type 0 where
  pub position : ℕ
  pub encoding : String
  pub state : B

pub record Snapshot (A : Type 0) : Type 0 where
  pub ts : ℕ
  pub position : ℕ
  pub entities : List (State A)

-- what `rows.Next` and `rows.Scan` give: a row, or the error of the scan
pub data Scanned (B : Type 0) : Type 0 where
  scanned : Row B → Scanned B
  scan_failed : Scanned B

pub data RestoreResult : Type 0 where
  position_of : ℕ → RestoreResult
  read_failed : RestoreResult
  unknown_encoding : String → RestoreResult

module _ {A : Type 0} where
  abbrev pub empty : Cache A
  empty = record { current = []; pending = none }

  unfoldable pub get : String → Cache A → Option (State A)
  get id c = lookup id c.current

  unfoldable pub len : Cache A → ℕ
  len c = length c.current

  -- the buffer that the next `Apply` works on
  abbrev pub working : Cache A → States A
  working c = elim c.pending [ none ↦ c.current | some m ↦ m ]

  abbrev pub state_of : Event A → Option A → State A
  state_of e attributes = record {
    entity_id = e.entity;
    updated_at = e.timestamp;
    updated_by = e.source;
    attributes = attributes;
  }

  -- a registration leaves a known entity as it is
  abbrev pub register : Event A → Option (State A) → States A → States A
  register e (some s) m = m
  register e none m = insert e.entity (state_of e none) m

  -- the switch over the payload
  unfoldable pub apply_payload : Event A → Payload A → States A → States A
  apply_payload e (state_changed attributes) m = insert e.entity (state_of e attributes) m
  apply_payload e entity_registered m = register e (lookup e.entity m) m
  apply_payload e entity_unregistered m = erase e.entity m
  apply_payload e other m = m

  unfoldable pub apply : Event A → Cache A → Cache A
  unfolding apply_payload
  apply e c = record { current = c.current; pending = some (apply_payload e e.payload (working c)) }

  unfoldable pub promote : Cache A → Cache A
  promote c = elim c.pending [ none ↦ c | some m ↦ record { current = m; pending = none } ]

  unfoldable pub discard : Cache A → Cache A
  discard c = record { current = c.current; pending = none }

  -- the events of one transaction, in the order of the log
  unfoldable pub apply_all : List (Event A) → Cache A → Cache A
  unfolding apply
  apply_all [] c = c
  apply_all (e ∷ es) c = apply_all es (apply e c)

  abbrev pub entities_of : States A → List (State A)
  entities_of [] = []
  entities_of ((k, s) ∷ m) = s ∷ entities_of m

  -- the loop of the map builder
  unfoldable pub rebuild : List (State A) → States A → States A
  rebuild [] m = m
  rebuild (s ∷ rest) m = rebuild rest (insert s.entity_id s m)

module _ {A B : Type 0} (encode : Snapshot A → B) (decode : B → Option (Snapshot A)) where
  -- The row that `Snapshot` inserts; `last` is the greatest position of the log, if there is one.
  unfoldable pub snapshot_row : ℕ → Option ℕ → Cache A → Row B
  snapshot_row now last c =
      let pos : ℕ = elim last [ none ↦ 1 | some p ↦ p ] in
      record {
        position = pos;
        encoding = "protobuf+zstd";
        state = encode (record { ts = now; position = pos; entities = entities_of c.current });
      }

  -- The rows in the order of the query, and whether they end without an error; the last component
  -- of the result counts the corrupt snapshots that are reported.
  unfoldable pub restore_rows : List (Scanned B) → Bool → Cache A → ℕ → Cache A × RestoreResult × ℕ
  unfolding rebuild
  restore_rows [] ends_well c reports =
      (c, if ends_well then position_of 0 else read_failed, reports)
  restore_rows (scan_failed ∷ rest) ends_well c reports = (c, read_failed, reports)
  restore_rows (scanned r ∷ rest) ends_well c reports =
      let skipped = restore_rows rest ends_well c (reports + 1) in
      if not (r.encoding == "protobuf+zstd")
      then (c, unknown_encoding r.encoding, reports)
      else elim (decode r.state) [
        | none ↦ skipped
        | some snap ↦ (
          record { current = rebuild snap.entities []; pending = c.pending },
          position_of r.position,
          reports,
        )
      ]

  unfoldable pub restore : Option (List (Scanned B)) → Bool → Cache A → Cache A × RestoreResult × ℕ
  unfolding restore_rows
  restore none ends_well c = (c, read_failed, 0)
  restore (some rows) ends_well c = restore_rows rows ends_well c 0
