-- ===== src/Policy/Scope.antt =====
-- internal/policy/intersect.go: what an API token may do. The sets and the pattern lists are
-- ranged over only to test their members, so their order plays no part.
pub mod Containment
use gohome.Prelude.{
  String, Bool, true, false, not, ◌&&◌, ◌||◌, List, contains, any, all, is_empty, if◌then◌else◌,
  ◌==◌, string_eq, has_prefix, has_star, trim_star,
}
use gohome.Policy.Schema.{Verb, ActionKey, CompiledSelector}
use gohome.Policy.Selector.{Target, selector_matches}

pub record CompiledTokenScope : Type 0 where
  pub allowed_actions : List ActionKey
  pub allowed_tools : List String
  pub allowed_services : List String
  pub allowed_targets : CompiledSelector

unfoldable pub token_pattern_matches : String → String → Bool
token_pattern_matches pattern action =
    if has_star pattern then has_prefix action (trim_star pattern) else pattern == action

unfoldable pub token_pattern_covers : String → String → Bool
token_pattern_covers parent child =
    if not (has_star parent)
    then not (has_star child) && parent == child
    else if not (has_star child)
    then has_prefix child (trim_star parent)
    else has_prefix (trim_star child) (trim_star parent)

unfoldable pub selector_empty : CompiledSelector → Bool
selector_empty sel =
    not sel.match_any && is_empty sel.area_set && is_empty sel.class_set && is_empty sel.entity_set

unfoldable pub set_contains_all : List String → List String → Bool
set_contains_all parent child = all (λ key. contains parent key) child

unfoldable pub action_allowed : CompiledTokenScope → String → Bool
action_allowed s action =
    if is_empty s.allowed_actions && is_empty s.allowed_tools && is_empty s.allowed_services
    then true
    else if contains s.allowed_actions action
    then true
    else if any (λ pattern. token_pattern_matches pattern action) s.allowed_tools
    then true
    else if any (λ pattern. token_pattern_matches pattern action) s.allowed_services
    then true
    else false

unfoldable pub target_allowed : CompiledTokenScope → Target → Bool
target_allowed s t =
    if s.allowed_targets.match_any
    then true
    else if is_empty s.allowed_targets.area_set
        && is_empty s.allowed_targets.class_set
        && is_empty s.allowed_targets.entity_set
    then true
    else selector_matches s.allowed_targets t

-- the verb is ignored: the issuer folded it into the key
unfoldable pub permits_action_in_scope : CompiledTokenScope → Verb → ActionKey → Bool
permits_action_in_scope s verb key = action_allowed s key

unfoldable pub permits_target : CompiledTokenScope → Target → Bool
permits_target s t = target_allowed s t

unfoldable pub allow : CompiledTokenScope → String → Target → Bool
allow s action target = action_allowed s action && target_allowed s target

unfoldable pub has_action_narrowing : CompiledTokenScope → Bool
has_action_narrowing s =
    not (is_empty s.allowed_actions)
    || not (is_empty s.allowed_tools)
    || not (is_empty s.allowed_services)

unfoldable pub covers_pattern : CompiledTokenScope → String → Bool
covers_pattern s child =
    if any (λ parent. token_pattern_covers parent child) s.allowed_actions
    then true
    else if any (λ parent. token_pattern_covers parent child) s.allowed_tools
    then true
    else if any (λ parent. token_pattern_covers parent child) s.allowed_services
    then true
    else false

unfoldable pub contains_actions : CompiledTokenScope → CompiledTokenScope → Bool
contains_actions s child =
    if not (has_action_narrowing s)
    then true
    else if not (has_action_narrowing child)
    then false
    else if not (all (λ action. action_allowed s action) child.allowed_actions)
    then false
    else if not (all (λ pattern. covers_pattern s pattern) child.allowed_tools)
    then false
    else if not (all (λ pattern. covers_pattern s pattern) child.allowed_services)
    then false
    else true

unfoldable pub contains_targets : CompiledTokenScope → CompiledTokenScope → Bool
contains_targets s child =
    let parent = s.allowed_targets in
    let target = child.allowed_targets in
    if parent.match_any
    then true
    else if selector_empty parent
    then true
    else if selector_empty target || target.match_any
    then false
    else set_contains_all parent.area_set target.area_set
      && set_contains_all parent.class_set target.class_set
      && set_contains_all parent.entity_set target.entity_set

unfoldable pub contains_scope : CompiledTokenScope → CompiledTokenScope → Bool
contains_scope s child = contains_actions s child && contains_targets s child
