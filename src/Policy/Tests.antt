-- ===== src/Policy/Tests.antt =====
-- Runs of internal/policy on small inputs, and the theorems at such inputs.
mod Installed
use gohome.Prelude.{
  String, ◌≡◌, refl, ◌↔◌, true, false, List, [], ◌∷◌, Memᴰ, none, some, arith, contains, lookup,
  FilteredBy, string_eq, ◌||◌, ◌==◌,
}
use gohome.Graph.{Reach, Cycle}
use gohome.Policy.Schema.{
  RoleSlug, CompiledSelector, Compiled, permits_action, make_action_key, Principal, Action,
  AuthTarget,
}
use gohome.Policy.Selector.{Target, AreaTree, children_of, expand_areas, selector_matches}
use gohome.Policy.Selector.Reach.{IsDeclared, expand_areas-exact}
use gohome.Policy.Scope.{
  CompiledTokenScope, contains_scope, contains_actions, contains_targets, allow, action_allowed,
  target_allowed, has_action_narrowing, covers_pattern, token_pattern_covers, token_pattern_matches,
  selector_empty,
}
use gohome.Policy.Scope.Containment.{contains_scope_sound}
use gohome.Policy.Roles.{RoleGraph, inherits_of, resolve_role_inheritance}
use gohome.Policy.Roles.Resolve.{IsClosure, resolve-none_iff, resolve-IsClosure}
use gohome.Policy.Rule.{RawPolicy, RawSelector, ActionCatalog, got, compile_rule}
use gohome.Policy.Compile.{Input, compile}
use gohome.Policy.Compile.Allowlist.{granted, compile-allowlist}
use gohome.Policy.Runtime.{Runtime, check_scope, check_target, authorize, filter_entities}
use gohome.Policy.Runtime.Decision.{
  permits, compiled_permits, authorize-permits, authorize-order, authorize-contained,
}
use gohome.Policy.Runtime.Filter.{IsVisible, filter_entities-exact}
use gohome.Policy.Explain.{explain, sorted_roles}
use gohome.Policy.Explain.Agreement.{verdict, explain-authorize, explain-permits}

-- the tree of TestExpandAreas_HierarchicalParentExpandsToDescendants, with a cycle added
abbrev pub floors : AreaTree
floors = record {
  children =
      ("main_floor", "kitchen" ∷ "living_room" ∷ [])
      ∷ ("kitchen", "pantry" ∷ [])
      ∷ ("pantry", "kitchen" ∷ [])
      ∷ ("garage", [])
      ∷ [];
  parent = [];
}

expand_main_floor :
    expand_areas floors ("main_floor" ∷ "attic" ∷ [])
    ≡ "living_room" ∷ "pantry" ∷ "kitchen" ∷ "main_floor" ∷ []
unfolding expand_areas
expand_main_floor = refl

expand_areas-exact_example :
    (contains (expand_areas floors ("main_floor" ∷ [])) "pantry" ≡ true) ↔ (
      (a : String) × IsDeclared floors ("main_floor" ∷ []) a
      × Reach (children_of floors) a "pantry")
expand_areas-exact_example = expand_areas-exact floors ("main_floor" ∷ []) "pantry"

abbrev pub graph_of : List String → RoleGraph
graph_of top = record {
  roles =
      ("admin", record { slug = "admin"; inherits = "user" ∷ [] })
      ∷ ("user", record { slug = "user"; inherits = "guest" ∷ top })
      ∷ [];
}

abbrev pub resolved : List (RoleSlug × List RoleSlug)
resolved = ("admin", "guest" ∷ "user" ∷ "admin" ∷ []) ∷ ("user", "guest" ∷ "user" ∷ []) ∷ []

resolve_chain : resolve_role_inheritance (graph_of []) ≡ some resolved
unfolding resolve_role_inheritance
resolve_chain = refl

resolve_cycle : resolve_role_inheritance (graph_of ("admin" ∷ [])) ≡ none
unfolding resolve_role_inheritance
resolve_cycle = refl

resolve-none_iff_example :
    (resolve_role_inheritance (graph_of ("admin" ∷ [])) ≡ none)
    ↔ ((x : RoleSlug) × Cycle (inherits_of (graph_of ("admin" ∷ []))) x)
resolve-none_iff_example = resolve-none_iff (graph_of ("admin" ∷ []))

resolve-IsClosure_example :
    (set : List RoleSlug) × (lookup "admin" resolved ≡ some set)
    × IsClosure (graph_of []) "admin" set
resolve-IsClosure_example = resolve-IsClosure (graph_of []) resolved "admin" resolve_chain refl

abbrev everything : RawSelector
everything = record { areas = []; classes = []; entity_ids = []; match_any = true }

abbrev pub sample_catalog : ActionCatalog
sample_catalog = record {
  actions =
      record { service = "EntityService"; method = "Subscribe"; verb = "read"; is_entity = true }
      ∷ record { service = "SystemService"; method = "Restart"; verb = "admin"; is_entity = false }
      ∷ [];
}

abbrev pub sample_input : Input
sample_input = record { digest = λ bytes. "h"; areas = floors; catalog = sample_catalog }

abbrev pub sample_policies : List RawPolicy
sample_policies =
    record {
      name = "read";
      subjects = "guest" ∷ [];
      allow = record { verbs = "read" ∷ []; targets = everything; services = [] } ∷ [];
      deny =
          record {
            verbs = [];
            targets = record {
              areas = [];
              classes = "Lock" ∷ [];
              entity_ids = [];
              match_any = false;
            };
            services = [];
          }
          ∷ [];
    }
    ∷ []

abbrev any_target : CompiledSelector
any_target = record { hash = ""; area_set = []; class_set = []; entity_set = []; match_any = true }

abbrev pub sample_compiled : Compiled
sample_compiled = record {
  generation = 1;
  action_allowlist = (("guest", "read"), "EntityService.Subscribe" ∷ []) ∷ [];
  allow_rules =
      (
        "guest",
        record { policy_name = "read"; verbs = "read" ∷ []; services = []; targets = any_target }
            ∷ [],
      )
      ∷ [];
  deny_rules =
      (
        "guest",
        record {
          policy_name = "read";
          verbs = [];
          services = [];
          targets = record {
            hash = "h";
            area_set = [];
            class_set = "Lock" ∷ [];
            entity_set = [];
            match_any = false;
          };
        }
            ∷ [],
      )
      ∷ [];
  area_expansion = ("h", []) ∷ [];
  role_inheritance = resolved;
}

pub compile_sample : (compile sample_input sample_policies (graph_of []) 0).0 ≡ got sample_compiled
unfolding compile resolve_role_inheritance compile_rule make_action_key expand_areas
compile_sample = refl

compile-allowlist_example :
    permits_action (some sample_compiled) "guest" "read" "EntityService.Subscribe"
    ≡ granted sample_catalog.actions sample_policies "guest" "read" "EntityService.Subscribe"
compile-allowlist_example =
    compile-allowlist sample_input sample_policies (graph_of []) 0 sample_compiled "guest" "read"
      "EntityService.Subscribe" compile_sample

abbrev scope_of : List String → List String → CompiledTokenScope
scope_of tools classes = record {
  allowed_actions = "SystemService.Ping" ∷ [];
  allowed_tools = tools;
  allowed_services = [];
  allowed_targets = record {
    hash = "";
    area_set = [];
    class_set = classes;
    entity_set = [];
    match_any = false;
  };
}

abbrev wide : CompiledTokenScope
wide = scope_of ("EntityService.*" ∷ []) []

abbrev pub narrow : CompiledTokenScope
narrow = scope_of ("EntityService.Sub*" ∷ []) ("Light" ∷ [])

abbrev lamp : Target
lamp = record { kind = "entity"; id = "light.hall"; area = "kitchen"; class = "Light" }

contains_narrow : contains_scope wide narrow ≡ true
unfolding contains_scope contains_actions contains_targets has_action_narrowing covers_pattern
    token_pattern_covers action_allowed selector_empty
contains_narrow = refl

narrow_allows : allow narrow "EntityService.Subscribe" lamp ≡ true
unfolding allow action_allowed target_allowed token_pattern_matches selector_matches
narrow_allows = refl

contains_scope_sound_example : allow wide "EntityService.Subscribe" lamp ≡ true
contains_scope_sound_example =
    contains_scope_sound wide narrow "EntityService.Subscribe" lamp refl contains_narrow
      narrow_allows

abbrev pub guest : Principal
guest = record { id = "g1"; display_name = "Guest"; kind = "user"; metadata = [] }

abbrev pub guest_roles : Principal → List RoleSlug
guest_roles p = "guest" ∷ []

abbrev pub running : Runtime
running = record { compiled = some sample_compiled; subs = [] }

abbrev pub subscribe : Action
subscribe = record { service = "EntityService"; method = "Subscribe"; verb = "read" }

abbrev pub at_class : String → AuthTarget
at_class class = record { kind = "entity"; id = "e1"; area = "kitchen"; class = class; attr = none }

lock_denied :
    authorize guest_roles running none guest subscribe (at_class "Lock")
    ≡ some (record { reason = "explicit_deny"; rule_name = "read" })
unfolding authorize permits_action make_action_key check_scope check_target selector_matches
lock_denied = refl

pub narrow_permits :
    permits (authorize guest_roles running (some narrow) guest subscribe (at_class "Light")) ≡ true
unfolding authorize permits_action make_action_key check_scope check_target selector_matches allow
    action_allowed target_allowed token_pattern_matches
narrow_permits = refl

authorize-permits_example :
    permits (authorize guest_roles running none guest subscribe (at_class "Lock")) ≡ (
      guest.kind == "system"
      || compiled_permits running.compiled (guest_roles guest) none subscribe (at_class "Lock"))
authorize-permits_example =
    authorize-permits guest_roles running none guest subscribe (at_class "Lock")

abbrev repeated_roles : Principal → List RoleSlug
repeated_roles p = "guest" ∷ "guest" ∷ []

authorize-order_example :
    permits (authorize repeated_roles running none guest subscribe (at_class "Light"))
    ≡ permits (authorize guest_roles running none guest subscribe (at_class "Light"))
authorize-order_example =
    authorize-order repeated_roles guest_roles running none guest subscribe (at_class "Light")
      (λ x. ground arith)

authorize-contained_example :
    permits (authorize guest_roles running (some wide) guest subscribe (at_class "Light")) ≡ true
authorize-contained_example =
    authorize-contained guest_roles running wide narrow guest subscribe (at_class "Light") refl
      contains_narrow narrow_permits

explain-permits_example :
    permits (verdict (explain guest_roles running guest subscribe (at_class "Lock")))
    ≡ permits (authorize guest_roles running none guest subscribe (at_class "Lock"))
explain-permits_example = explain-permits guest_roles running guest subscribe (at_class "Lock")

explain-authorize_example :
    verdict (explain guest_roles running guest subscribe (at_class "Lock"))
    ≡ authorize (λ q. sorted_roles (guest_roles q)) running none guest subscribe (at_class "Lock")
explain-authorize_example =
    explain-authorize guest_roles running sample_compiled guest subscribe (at_class "Lock") refl

abbrev door_lock : Target
door_lock = record lamp { id = "lock.front"; class = "Lock" }

filter_entities-exact_example :
    FilteredBy
      (IsVisible guest_roles running none guest "read")
      (lamp ∷ door_lock ∷ lamp ∷ [])
      (filter_entities guest_roles running none guest "read" (lamp ∷ door_lock ∷ lamp ∷ [])).0
    × FilteredBy
        (λ t. ¬ IsVisible guest_roles running none guest "read" t)
        (lamp ∷ door_lock ∷ lamp ∷ [])
        (filter_entities guest_roles running none guest "read" (lamp ∷ door_lock ∷ lamp ∷ [])).1
filter_entities-exact_example =
    filter_entities-exact guest_roles running none guest "read" (lamp ∷ door_lock ∷ lamp ∷ [])
