-- ===== src/Policy/Tests/Installed.antt =====
-- The theorems on an installed artifact at small inputs.
use gohome.Prelude.{◌≡◌, refl, true, [], ◌∷◌, none, some, ◌==◌}
use gohome.Policy.Schema.{Compiled, make_action_key}
use gohome.Policy.Roles.{resolve_role_inheritance}
use gohome.Policy.Rule.{got, compile_rule}
use gohome.Policy.Selector.{expand_areas}
use gohome.Policy.Compile.{Input, compile}
use gohome.Policy.Runtime.{Runtime, authorize}
use gohome.Policy.Runtime.Decision.{permits}
use gohome.Policy.Runtime.Granted.{some_grant, authorize-granted, authorize-empty_catalog}
use gohome.Policy.Tests.{
  floors, graph_of, sample_catalog, sample_input, sample_policies, sample_compiled, compile_sample,
  guest, guest_roles, running, subscribe, at_class, narrow, narrow_permits,
}

authorize-granted_example :
    some_grant sample_catalog.actions sample_policies ("guest" ∷ []) subscribe ≡ true
authorize-granted_example =
    authorize-granted sample_input sample_policies (graph_of []) 0 sample_compiled guest_roles
      running (some narrow) guest subscribe (at_class "Light") compile_sample refl refl
      narrow_permits

-- the same policies, without the catalog
abbrev bare_input : Input
bare_input = record { digest = λ bytes. "h"; areas = floors; catalog = record { actions = [] } }

abbrev bare_compiled : Compiled
bare_compiled = record sample_compiled { action_allowlist = [] }

compile_bare : (compile bare_input sample_policies (graph_of []) 0).0 ≡ got bare_compiled
unfolding compile resolve_role_inheritance compile_rule make_action_key expand_areas
compile_bare = refl

abbrev bare_running : Runtime
bare_running = record { compiled = some bare_compiled; subs = [] }

authorize-empty_catalog_example :
    permits (authorize guest_roles bare_running none guest subscribe (at_class "Light"))
    ≡ (guest.kind == "system")
authorize-empty_catalog_example =
    authorize-empty_catalog bare_input sample_policies (graph_of []) 0 bare_compiled guest_roles
      bare_running none guest subscribe (at_class "Light") refl compile_bare refl
