-- ===== src/Policy/Schema.antt =====
-- internal/policy/schema.go, and the request types of internal/auth/auth.go. A named string type
-- of the source is `String`; a set is the list of its keys.
use Prim.Native.String.{◌++◌}
use gohome.Prelude.{
  ℕ, String, Bool, false, List, ◌∷◌, [], Option, none, some, lookup, contains, string_eq, pair_eq,
}

abbrev pub Verb : Type 0
Verb = String

abbrev pub RoleSlug : Type 0
RoleSlug = String

abbrev pub ActionKey : Type 0
ActionKey = String

abbrev pub AreaSlug : Type 0
AreaSlug = String

abbrev pub all_verbs : List Verb
all_verbs = "read" ∷ "call" ∷ "write" ∷ "admin" ∷ []

pub record CompiledSelector : Type 0 where
  pub hash : String
  pub area_set : List AreaSlug
  pub class_set : List String
  pub entity_set : List String
  pub match_any : Bool

pub record CompiledRule : Type 0 where
  pub policy_name : String
  pub verbs : List Verb
  pub services : List String
  pub targets : CompiledSelector

pub record Compiled : Type 0 where
  pub generation : ℕ
  pub action_allowlist : List ((RoleSlug × Verb) × List ActionKey)
  pub allow_rules : List (RoleSlug × List CompiledRule)
  pub deny_rules : List (RoleSlug × List CompiledRule)
  pub area_expansion : List (String × List AreaSlug)
  pub role_inheritance : List (RoleSlug × List RoleSlug)

-- A nil `*Compiled` permits nothing.
unfoldable pub permits_action : Option Compiled → RoleSlug → Verb → ActionKey → Bool
permits_action none role verb key = false
permits_action (some c) role verb key = elim (lookup (role, verb) c.action_allowlist) [
  | none ↦ false
  | some set ↦ contains set key
]

unfoldable pub make_action_key : String → String → ActionKey
make_action_key service method = service ++ ("." ++ method)

pub record Principal : Type 0 where
  pub id : String
  pub display_name : String
  pub kind : String
  pub metadata : List (String × String)

pub record Action : Type 0 where
  pub service : String
  pub method : String
  pub verb : String

-- `auth.Target`; `attr` is `none` for a nil map
pub record AuthTarget : Type 0 where
  pub kind : String
  pub id : String
  pub area : String
  pub class : String
  pub attr : Option (List (String × String))
