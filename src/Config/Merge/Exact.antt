-- ===== src/Config/Merge/Exact.antt =====
-- What `merge_discovered` keeps, adds and refuses.
use gohome.Prelude.{
  String, ◌≡◌, refl, ◌∙◌, Bool, true, false, not, ◌&&◌, ◌||◌, List, [], ◌∷◌, ◌++◌, Option, none,
  some, arith, lookup, insert, lookup-insert, contains, keys, any, string_eq, if◌then◌else◌, eq_iff,
  ◌==◌, Bool-cases, inl, inr,
}
use mathlib.Core.List.{append_assoc, append-nil}
use gohome.Config.Merge.{
  Config, Discovered, ConfigSnapshot, DiscoveryResult, Progress, expected_id, ids_of, merge_one,
  merge_items, merge_area, merge_areas, merge_discovered,
}

-- the file is named after its id
abbrev pub is_named : Discovered → Bool
is_named d = d.config.id == expected_id d.path

-- the files that the merge takes: named after their id, which is not declared inline
abbrev pub taken : List String → List Discovered → List Config
taken inline [] = []
taken inline (d ∷ rest) =
    let later = taken inline rest in
    if is_named d && not (contains inline d.config.id) then d.config ∷ later else later

-- some file is named after an id that is declared inline
abbrev pub clashes : List String → List Discovered → Bool
clashes inline l = any (λ d. is_named d && contains inline d.config.id) l

merged-merge_items :
    (kind : String) (inline : List String) (l : List Discovered) (p : Progress (List Config))
    → (merge_items kind inline l p).merged ≡ p.merged ++ taken inline l
unfolding merge_items
merged-merge_items kind inline [] p = rw append-nil refl
merged-merge_items kind inline (d ∷ rest) p =
    merged-merge_items kind inline rest (merge_one kind inline d p)
    ∙ elim (Bool-cases (is_named d)) [
      | inr misnamed ↦ rw (misnamed, merge_one) refl
      | inl named ↦ elim (Bool-cases (contains inline d.config.id)) [
        | inl dup ↦ rw (named, dup, merge_one) refl
        | inr new ↦ rw (named, new, merge_one) (rw append_assoc refl)
      ]
    ]

hard_err-merge_items :
    (kind : String) (inline : List String) (l : List Discovered) (p : Progress (List Config))
    → (merge_items kind inline l p).hard_err ≡ (p.hard_err || clashes inline l)
unfolding merge_items
hard_err-merge_items kind inline [] p = ground arith
hard_err-merge_items kind inline (d ∷ rest) p =
    hard_err-merge_items kind inline rest (merge_one kind inline d p) ∙ ground arith

-- two values under one key, the old one missing or the same
abbrev pub differs : Option String → String → Bool
differs none v = false
differs (some existing) v = not (existing == v)

abbrev pub area_clashes : List (String × String) → List (String × String) → Bool
area_clashes m [] = false
area_clashes m ((k, v) ∷ rest) = differs (lookup k m) v || area_clashes m rest

-- no key twice, as in a Go map
abbrev pub is_distinct : List (String × String) → Bool
is_distinct [] = true
is_distinct ((k, v) ∷ rest) = not (contains (keys rest) k) && is_distinct rest

abbrev pub or_new : Option String → Option String → Option String
or_new none new = new
or_new (some old) new = some old

lookup-merge_area :
    (k j v : String) (p : Progress (List (String × String)))
    → lookup j (merge_area k v p).merged
      ≡ or_new (lookup j p.merged) (if k == j then some v else none)
unfolding merge_area
lookup-merge_area k j v p = of_old (lookup k p.merged) refl
  where
    of_old :
        (o : Option String)
        → lookup k p.merged ≡ o
        → lookup j (merge_area k v p).merged
          ≡ or_new (lookup j p.merged) (if k == j then some v else none)
    of_old none missing =
        rw (missing, merge_area) (ground (arith, lookup-insert k j v p.merged, eq_iff k j, missing))
    of_old (some existing) found = elim (Bool-cases (existing == v)) [
      | inr clash ↦ rw (found, clash, merge_area) (ground (arith, eq_iff k j, found))
      | inl same ↦
          rw (found, same, merge_area)
            (ground (arith, lookup-insert k j v p.merged, eq_iff k j, eq_iff existing v, found))
    ]

lookup-merge_areas :
    (l : List (String × String)) (p : Progress (List (String × String))) (j : String)
    → lookup j (merge_areas l p).merged ≡ or_new (lookup j p.merged) (lookup j l)
unfolding merge_areas
lookup-merge_areas [] p j = ground arith
lookup-merge_areas ((k, v) ∷ rest) p j =
    ground (arith, lookup-merge_areas rest (merge_area k v p) j, lookup-merge_area k j v p)

area_clashes-insert :
    (k v : String) (m l : List (String × String))
    → contains (keys l) k ≡ false
    → area_clashes (insert k v m) l ≡ area_clashes m l
area_clashes-insert k v m [] h = refl
area_clashes-insert k v m ((j, w) ∷ rest) h =
    ground (arith, lookup-insert k j v m, area_clashes-insert k v m rest, eq_iff k j, eq_iff j k)

hard_err-merge_areas :
    (l : List (String × String)) (p : Progress (List (String × String)))
    → is_distinct l ≡ true
    → (merge_areas l p).hard_err ≡ (p.hard_err || area_clashes p.merged l)
unfolding merge_areas
hard_err-merge_areas [] p h = ground arith
hard_err-merge_areas ((k, v) ∷ rest) p h =
    hard_err-merge_areas rest (merge_area k v p) (ground arith)
    ∙ (unfold merge_area in ground (arith, area_clashes-insert k v p.merged rest))

pub record IsMerge (snap : ConfigSnapshot) (disc : DiscoveryResult) (merged : ConfigSnapshot)
    (hard_err : Bool) : Type 0 where
  pub automations :
      merged.automations ≡ snap.automations ++ taken (ids_of snap.automations) disc.automations
  pub areas : merged.areas ≡ snap.areas ++ taken (ids_of snap.areas) disc.areas
  pub scenes : merged.scenes ≡ snap.scenes ++ taken (ids_of snap.scenes) disc.scenes
  pub entity_areas :
      (k : String)
      → lookup k merged.entity_areas
        ≡ or_new (lookup k snap.entity_areas) (lookup k disc.entity_areas)
  pub fails : hard_err ≡ (
      (clashes (ids_of snap.automations) disc.automations || clashes (ids_of snap.areas) disc.areas)
      || (clashes (ids_of snap.scenes) disc.scenes
          || area_clashes snap.entity_areas disc.entity_areas))

-- The merge appends to the inline automations, areas and scenes exactly the discovered ones that
-- are named after their id and not declared inline, keeps the area of every entity that has one
-- inline and takes the others from the file. Where the file maps no entity twice, it fails exactly
-- if a file is named after an id that is declared inline, or the area of an entity differs.
pub merge_discovered-IsMerge :
    (snap : ConfigSnapshot) (disc : DiscoveryResult)
    → is_distinct disc.entity_areas ≡ true
    → IsMerge snap disc (merge_discovered snap disc).0 (merge_discovered snap disc).2
unfolding merge_discovered
merge_discovered-IsMerge snap disc distinct = record {
  automations = merged-merge_items "automations" (ids_of snap.automations) disc.automations _;
  areas = merged-merge_items "areas" (ids_of snap.areas) disc.areas _;
  scenes = merged-merge_items "scenes" (ids_of snap.scenes) disc.scenes _;
  entity_areas = λ k. lookup-merge_areas disc.entity_areas _ k;
  fails =
      hard_err-merge_areas disc.entity_areas _ distinct
      ∙ rw (hard_err-merge_items "scenes" (ids_of snap.scenes) disc.scenes) (
          rw (hard_err-merge_items "areas" (ids_of snap.areas) disc.areas) (
            rw (hard_err-merge_items "automations" (ids_of snap.automations) disc.automations)
              (ground arith)));
}
