-- ===== src/Config/Merge.antt =====
-- internal/config/merge.go. The three loops over automations, areas and scenes are one function
-- over the kind of configuration; the messages of the errors are left out.
pub mod Exact
use gohome.Prelude.{
  ℕ, String, Bool, true, false, not, ◌&&◌, ◌||◌, List, [], ◌∷◌, ◌++◌, Option, none, some, lookup,
  insert, contains, string_eq, if◌then◌else◌, ◌==◌, eqb, map,
}
use Prim.Native.Char.{code}
use Prim.Native.String.{◌++◌ as text_append}

-- `strings.TrimSuffix`
unfoldable pub trim_suffix : String → String → String
trim_suffix String.[] suffix = String.[]
trim_suffix (String.◌∷◌ c s) suffix =
    let rest = String.◌∷◌ c (trim_suffix s suffix) in
    if String.◌∷◌ c s == suffix then String.[] else rest

-- `filepath.Base`: the slashes at the end go, then all up to the last slash
abbrev pub trim_slashes : String → String
trim_slashes String.[] = String.[]
trim_slashes (String.◌∷◌ c s) =
    let rest = trim_slashes s in
    if rest == ""
    then (if eqb (code c) b'/' then String.[] else String.◌∷◌ c String.[])
    else String.◌∷◌ c rest

abbrev pub last_segment : String → String → String
last_segment seen String.[] = seen
last_segment seen (String.◌∷◌ c s) =
    last_segment (if eqb (code c) b'/' then "" else text_append seen (String.◌∷◌ c String.[])) s

unfoldable pub base : String → String
base path =
    if path == ""
    then "."
    else if trim_slashes path == ""
    then "/"
    else last_segment "" (trim_slashes path)

unfoldable pub expected_id : String → String
unfolding base trim_suffix
expected_id path = trim_suffix (base path) ".pkl"

-- A configuration with its id; what else it holds does not matter here.
pub record Config : Type 0 where
  pub id : String
  pub body : ℕ

pub record Discovered : Type 0 where
  pub path : String
  pub config : Config

pub record ValidationError : Type 0 where
  pub code : String
  pub file : String
  pub field : String

pub record ConfigSnapshot : Type 0 where
  pub automations : List Config
  pub areas : List Config
  pub scenes : List Config
  pub entity_areas : List (String × String)

pub record DiscoveryResult : Type 0 where
  pub automations : List Discovered
  pub areas : List Discovered
  pub scenes : List Discovered
  pub entity_areas : List (String × String)

abbrev pub ids_of : List Config → List String
ids_of [] = []
ids_of (c ∷ rest) = c.id ∷ ids_of rest

abbrev pub field_of : String → String → String
field_of kind key = text_append kind (text_append "[" (text_append key "]"))

-- what a loop has done so far: the list of the snapshot, the errors, and `hardErr`
pub record Progress (A : Type 0) : Type 0 where
  pub merged : A
  pub errs : List ValidationError
  pub hard_err : Bool

abbrev pub fault : {A : Type 0} → ValidationError → Bool → Progress A → Progress A
fault e hard p = record {
  merged = p.merged;
  errs = p.errs ++ (e ∷ []);
  hard_err = hard || p.hard_err;
}

-- the body of the loop over the discovered files of one kind
unfoldable pub merge_one :
    String → List String → Discovered → Progress (List Config) → Progress (List Config)
merge_one kind inline d p =
    if not (d.config.id == expected_id d.path)
    then fault
        (record { code = "filename_id_mismatch"; file = d.path; field = field_of kind d.config.id })
        false p
    else if contains inline d.config.id
    then fault (record { code = "duplicate_id"; file = d.path; field = field_of kind d.config.id })
        true p
    else record { merged = p.merged ++ (d.config ∷ []); errs = p.errs; hard_err = p.hard_err }

unfoldable pub merge_items :
    String → List String → List Discovered → Progress (List Config) → Progress (List Config)
unfolding merge_one
merge_items kind inline [] p = p
merge_items kind inline (d ∷ rest) p = merge_items kind inline rest (merge_one kind inline d p)

-- the body of the loop over the discovered entity areas
unfoldable pub merge_area :
    String → String → Progress (List (String × String)) → Progress (List (String × String))
merge_area k v p =
    let clash : Progress (List (String × String)) =
      fault
        (record {
          code = "duplicate_entity_area";
          file = "entity-areas.pkl";
          field = field_of "entityAreas" k;
        })
        true p in
    let set : Progress (List (String × String)) = record {
      merged = insert k v p.merged;
      errs = p.errs;
      hard_err = p.hard_err;
    } in
    elim (lookup k p.merged) [
      | none ↦ set
      | some existing ↦ if not (existing == v) then clash else set
    ]

unfoldable pub merge_areas :
    List (String × String) → Progress (List (String × String)) → Progress (List (String × String))
unfolding merge_area
merge_areas [] p = p
merge_areas ((k, v) ∷ rest) p = merge_areas rest (merge_area k v p)

-- The result is the merged snapshot, the errors, and whether the merge failed.
unfoldable pub merge_discovered :
    ConfigSnapshot → DiscoveryResult → ConfigSnapshot × List ValidationError × Bool
unfolding merge_items merge_areas
merge_discovered snap disc =
    let autos =
      merge_items "automations" (ids_of snap.automations) disc.automations
        (record { merged = snap.automations; errs = []; hard_err = false }) in
    let areas =
      merge_items "areas" (ids_of snap.areas) disc.areas
        (record { merged = snap.areas; errs = autos.errs; hard_err = autos.hard_err }) in
    let scenes =
      merge_items "scenes" (ids_of snap.scenes) disc.scenes
        (record { merged = snap.scenes; errs = areas.errs; hard_err = areas.hard_err }) in
    let entity_areas =
      merge_areas disc.entity_areas
        (record { merged = snap.entity_areas; errs = scenes.errs; hard_err = scenes.hard_err }) in
    (
      record {
        automations = autos.merged;
        areas = areas.merged;
        scenes = scenes.merged;
        entity_areas = entity_areas.merged;
      },
      entity_areas.errs,
      entity_areas.hard_err,
    )
