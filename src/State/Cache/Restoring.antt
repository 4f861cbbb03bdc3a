-- ===== src/State/Cache/Restoring.antt =====
-- A snapshot of the cache, read back.
use gohome.Prelude.{
  ℕ, ◌+◌, String, ◌≡◌, refl, ap, ◌∙◌, Bool, true, false, ◌&&◌, List, [], ◌∷◌, ◌++◌, Option, none,
  some, arith, all, length, lookup, lookup-insert, lookup-none, insert, string_eq, eq_iff, ◌==◌,
  Bool-cases, &&_true, inl, inr,
}
use gohome.State.Cache.{
  State, States, Cache, get, Row, Snapshot, Scanned, scanned, scan_failed, RestoreResult,
  position_of, entities_of, rebuild, snapshot_row, restore_rows, restore,
}
use gohome.State.Cache.Keyed.{IsKeyed, IsWellFormed}

module _ {A : Type 0} where
  -- the value of the first map, else that of the second
  abbrev or_else : Option (State A) → Option (State A) → Option (State A)
  or_else none o = o
  or_else (some s) o = some s

  or_none : (o : Option (State A)) → or_else o none ≡ o
  or_none none = refl
  or_none (some s) = refl

  lookup-rebuild :
      (id : String) (m acc : States A)
      → IsKeyed m
      → lookup id (rebuild (entities_of m) acc) ≡ or_else (lookup id m) (lookup id acc)
  unfolding rebuild
  lookup-rebuild id [] acc h = refl
  lookup-rebuild id ((k, s) ∷ m) acc (own, once, rest) =
      lookup-rebuild id m (insert s.entity_id s acc) rest
      ∙ ap (or_else (lookup id m)) (lookup-insert s.entity_id id s acc)
      ∙ rw (ap (λ x. x == id) own) (elim (Bool-cases (k == id)) [
        | inl same ↦ rw (same, lookup-none id m (rw⁻¹ ((eq_iff k id).0 same) once)) refl
        | inr apart ↦ rw apart refl
      ])

module _ {A B : Type 0} (encode : Snapshot A → B) (decode : B → Option (Snapshot A)) where
  -- a snapshot that does not decode
  abbrev pub is_corrupt : Scanned B → Bool
  is_corrupt scan_failed = false
  is_corrupt (scanned r) =
      (r.encoding == "protobuf+zstd") && elim (decode r.state) [ none ↦ true | some snap ↦ false ]

  skip_one :
      (r : Row B) (rest : List (Scanned B)) (ends_well : Bool) (c : Cache A) (reports : ℕ)
      → is_corrupt (scanned r) ≡ true
      → restore_rows encode decode (scanned r ∷ rest) ends_well c reports
        ≡ restore_rows encode decode rest ends_well c (reports + 1)
  unfolding restore_rows
  skip_one r rest ends_well c reports h =
      let (enc, bad) = &&_true (r.encoding == "protobuf+zstd") _ h in
      rw (enc, undecoded (decode r.state) bad) refl
    where
      undecoded :
          (o : Option (Snapshot A)) → (elim o [ none ↦ true | some snap ↦ false ]) ≡ true → o ≡ none
      undecoded none bad = refl
      undecoded (some snap) bad = cc

  take_one :
      (r : Row B) (snap : Snapshot A) (rest : List (Scanned B)) (ends_well : Bool) (c : Cache A)
      (reports : ℕ)
      → (r.encoding == "protobuf+zstd") ≡ true
      → decode r.state ≡ some snap
      → restore_rows encode decode (scanned r ∷ rest) ends_well c reports ≡ (
        record { current = rebuild snap.entities []; pending = c.pending },
        position_of r.position,
        reports,
      )
  unfolding restore_rows
  take_one r snap rest ends_well c reports enc decodes = rw (enc, decodes) refl

  restore_rows-skip :
      (bad rows : List (Scanned B)) (ends_well : Bool) (c : Cache A) (reports : ℕ)
      → all is_corrupt bad ≡ true
      → restore_rows encode decode (bad ++ rows) ends_well c reports
        ≡ restore_rows encode decode rows ends_well c (reports + length bad)
  unfolding restore_rows
  restore_rows-skip [] rows ends_well c reports h =
      ap (restore_rows encode decode rows ends_well c) (omega arith)
  restore_rows-skip (scan_failed ∷ bad) rows ends_well c reports h = cc
  restore_rows-skip (scanned r ∷ bad) rows ends_well c reports h =
      skip_one r (bad ++ rows) ends_well c reports
        (&&_true (is_corrupt (scanned r)) (all is_corrupt bad) h).0
      ∙ restore_rows-skip bad rows ends_well c (reports + 1)
          (&&_true (is_corrupt (scanned r)) (all is_corrupt bad) h).1
      ∙ ap (restore_rows encode decode rows ends_well c) (omega arith)

  -- what a restart reads back
  pub record IsRestored (saved : Cache A) (last : Option ℕ) (r : Cache A × RestoreResult × ℕ)
      (corrupt : ℕ) : Type 0 where
    pub states : (id : String) → get id r.0 ≡ get id saved
    pub position : r.1 ≡ position_of (elim last [ none ↦ 1 | some p ↦ p ])
    pub reports : r.2 ≡ corrupt

  -- If the decoder reads back what the encoder writes, a cache in which each entity stands once and
  -- under its own id is restored from its snapshot, whatever the cache held before: newer
  -- snapshots that are corrupt are skipped and counted, and older ones are not read.
  pub restore-snapshot_row :
      ((s : Snapshot A) → decode (encode s) ≡ some s)
      → (saved other : Cache A) (now : ℕ) (last : Option ℕ) (bad older : List (Scanned B))
        (ends_well : Bool)
      → IsWellFormed saved
      → all is_corrupt bad ≡ true
      → IsRestored saved last
          (restore encode decode
            (some (bad ++ (scanned (snapshot_row encode decode now last saved) ∷ older)))
            ends_well
            other)
          (length bad)
  unfolding restore get snapshot_row
  restore-snapshot_row codec saved other now last bad older ends_well h corrupt =
      rw
        (
          restore_rows-skip bad (scanned (snapshot_row encode decode now last saved) ∷ older)
              ends_well other 0 corrupt,
          take_one (snapshot_row encode decode now last saved) _ older ends_well other
              (0 + length bad) refl (codec _),
        )
        (record {
          states = λ id.
              lookup-rebuild id saved.current [] h.current ∙ or_none (lookup id saved.current);
          position = refl;
          reports = omega arith;
        })
