-- ===== src/Policy/Selector.antt =====
-- internal/policy/selector.go
pub mod Reach
use gohome.Prelude.{
  ℕ, zero, suc, ◌+◌, String, Bool, true, false, not, ◌&&◌, ◌||◌, List, ◌∷◌, [], Option, none, some,
  lookup, contains, string_eq, keys, or_zero, is_empty, length, if◌then◌else◌, ◌==◌,
}
use gohome.Policy.Schema.{AreaSlug, CompiledSelector}

pub record Target : Type 0 where
  pub kind : String
  pub id : String
  pub area : AreaSlug
  pub class : String

pub record AreaTree : Type 0 where
  pub children : List (AreaSlug × List AreaSlug)
  pub parent : List (AreaSlug × AreaSlug)

unfoldable pub selector_matches : CompiledSelector → Target → Bool
selector_matches sel t =
    if sel.match_any
    then true
    else if not (is_empty sel.area_set) && contains sel.area_set t.area
    then true
    else if not (is_empty sel.class_set) && contains sel.class_set t.class
    then true
    else if not (is_empty sel.entity_set) && contains sel.entity_set t.id
    then true
    else false

-- `tree.Children[a]`, nil for a missing key
abbrev pub children_of : AreaTree → AreaSlug → List AreaSlug
children_of tree a = or_zero [] (lookup a tree.children)

-- one call after another on a set that each of them extends
abbrev pub walk_each :
    (AreaSlug → List AreaSlug → List AreaSlug) → List AreaSlug → List AreaSlug → List AreaSlug
walk_each walk [] out = out
walk_each walk (a ∷ rest) out = walk_each walk rest (walk a out)

-- The fuel bounds the depth of the calls; with none left nothing is added.
unfoldable pub walk_descendants : ℕ → AreaTree → AreaSlug → List AreaSlug → List AreaSlug
walk_descendants zero tree root out = out
walk_descendants (suc fuel) tree root out =
    let rest = walk_each (walk_descendants fuel tree) (children_of tree root) (root ∷ out) in
    if contains out root then out else rest

-- Only a key of the map has children, so a chain of calls is no longer than the map, and one.
abbrev pub depth_bound : AreaTree → ℕ
depth_bound tree = suc (length (keys tree.children))

-- the body of the loop over the declarations
unfoldable pub expand_decl : AreaTree → String → List AreaSlug → List AreaSlug
expand_decl tree d out =
    if d == "*"
    then walk_each (walk_descendants (depth_bound tree) tree) (keys tree.children) out
    else if not (contains (keys tree.children) d)
    then out
    else walk_descendants (depth_bound tree) tree d out

unfoldable pub expand_each : AreaTree → List String → List AreaSlug → List AreaSlug
expand_each tree [] out = out
expand_each tree (d ∷ decls) out = expand_each tree decls (expand_decl tree d out)

unfoldable pub expand_areas : AreaTree → List String → List AreaSlug
unfolding expand_each expand_decl walk_descendants
expand_areas tree decls = expand_each tree decls []
