-- ===== src/Api/TokenScope.antt =====
-- internal/api/token_scope.go, and the check of a new token's scope in service_auth.go. A nil
-- message is `none`; its getters give empty lists. The messages of the errors are left out.
pub mod Patterns
pub mod Allowed
use gohome.Prelude.{
  ℕ, suc, ◌+◌, String, Bool, true, false, not, ◌&&◌, ◌||◌, List, [], ◌∷◌, ◌++◌, Option, none, some,
  is_empty, add, any, eqb, lookup, insert, length, string_eq, has_star, ◌==◌, if◌then◌else◌,
}
use Prim.Native.Char.{code}
use Prim.Native.String.{◌++◌ as text_append}
use gohome.Policy.Schema.{CompiledSelector}
use gohome.Policy.Scope.{CompiledTokenScope, contains_scope}

pub record TokenTargetSelector : Type 0 where
  pub areas : List String
  pub classes : List String
  pub entity_ids : List String

pub record TokenScope : Type 0 where
  pub allow_tools : List String
  pub allow_services : List String
  pub allow_targets : Option TokenTargetSelector

pub data ScopeError : Type 0 where
  empty_pattern wildcard_inside empty_area empty_class empty_entity token_scope_broader : ScopeError

pub data ScopeResult (A : Type 0) : Type 0 where
  compiled : A → ScopeResult A
  rejected : ScopeError → ScopeResult A

-- the getters, on a message or nil
abbrev pub no_targets : TokenTargetSelector
no_targets = record { areas = []; classes = []; entity_ids = [] }

abbrev pub targets_of : TokenScope → TokenTargetSelector
targets_of s = elim s.allow_targets [ none ↦ no_targets | some sel ↦ sel ]

-- `strings.Count(pattern, "*")`
unfoldable pub count_stars : String → ℕ
count_stars String.[] = 0
count_stars (String.◌∷◌ c s) = if eqb (code c) b'*' then suc (count_stars s) else count_stars s

unfoldable pub validate_token_scope_pattern : String → Option ScopeError
unfolding count_stars
validate_token_scope_pattern pattern =
    if pattern == ""
    then some empty_pattern
    else if eqb (count_stars pattern) 0
    then none
    else if eqb (count_stars pattern) 1 && has_star pattern
    then none
    else some wildcard_inside

-- the loops over the patterns and over the items of a selector: the first error ends them
abbrev pub validate_patterns : List String → Option ScopeError
validate_patterns [] = none
validate_patterns (pattern ∷ rest) = elim (validate_token_scope_pattern pattern) [
  | some e ↦ some e
  | none ↦ validate_patterns rest
]

abbrev pub validate_items : ScopeError → List String → Option ScopeError
validate_items e [] = none
validate_items e (item ∷ rest) = if item == "" then some e else validate_items e rest

-- an error, or else that of what follows
abbrev pub first_error : Option ScopeError → Option ScopeError → Option ScopeError
first_error (some e) later = some e
first_error none later = later

unfoldable pub validate_token_scope : Option TokenScope → Option ScopeError
unfolding validate_token_scope_pattern
validate_token_scope none = none
validate_token_scope (some s) = first_error (validate_patterns s.allow_tools) (
    first_error (validate_patterns s.allow_services) (
      first_error (validate_items empty_area (targets_of s).areas) (
        first_error (validate_items empty_class (targets_of s).classes)
          (validate_items empty_entity (targets_of s).entity_ids))))

-- `areaSet` and `stringSet`: an empty list gives nil, which is the empty set
unfoldable pub string_set : List String → List String
string_set [] = []
string_set (item ∷ rest) = add item (string_set rest)

unfoldable pub compile_token_target_selector : Option TokenTargetSelector → CompiledSelector
unfolding string_set
compile_token_target_selector none = record {
  hash = "";
  area_set = [];
  class_set = [];
  entity_set = [];
  match_any = false;
}
compile_token_target_selector (some sel) = record {
  hash = "";
  area_set = string_set sel.areas;
  class_set = string_set sel.classes;
  entity_set = string_set sel.entity_ids;
  match_any = false;
}

abbrev pub empty_scope : CompiledTokenScope
empty_scope = record {
  allowed_actions = [];
  allowed_tools = [];
  allowed_services = [];
  allowed_targets = record {
    hash = "";
    area_set = [];
    class_set = [];
    entity_set = [];
    match_any = false;
  };
}

abbrev pub scope_of : Option TokenScope → CompiledTokenScope
scope_of none = empty_scope
scope_of (some s) = record {
  allowed_actions = [];
  allowed_tools = s.allow_tools;
  allowed_services = s.allow_services;
  allowed_targets = compile_token_target_selector s.allow_targets;
}

unfoldable pub compile_token_scope : Option TokenScope → ScopeResult CompiledTokenScope
unfolding validate_token_scope compile_token_target_selector
compile_token_scope s = elim (validate_token_scope s) [
  | some e ↦ rejected e
  | none ↦ compiled (scope_of s)
]

unfoldable pub empty_token_scope : Option TokenScope → Bool
empty_token_scope none = true
empty_token_scope (some s) =
    is_empty s.allow_tools
    && is_empty s.allow_services
    && is_empty (targets_of s).areas
    && is_empty (targets_of s).classes
    && is_empty (targets_of s).entity_ids

-- one part of the summary, where there is something to count
abbrev count_part : (ℕ → String) → String → List String → List String
count_part decimal label [] = []
count_part decimal label (x ∷ xs) = text_append label (decimal (length (x ∷ xs))) ∷ []

-- `strings.Join(parts, ",")`
abbrev join_parts : List String → String
join_parts [] = ""
join_parts (p ∷ []) = p
join_parts (p ∷ q ∷ rest) = text_append p (text_append "," (join_parts (q ∷ rest)))

abbrev summary_parts : (ℕ → String) → TokenScope → String
summary_parts decimal s = join_parts (
    count_part decimal "tools=" s.allow_tools
    ++ (count_part decimal "services=" s.allow_services
        ++ (count_part decimal "areas=" (targets_of s).areas
            ++ (count_part decimal "classes=" (targets_of s).classes
                ++ count_part decimal "entities=" (targets_of s).entity_ids))))

unfoldable pub token_scope_summary : (ℕ → String) → TokenScope → String
unfolding empty_token_scope
token_scope_summary decimal s =
    if empty_token_scope (some s) then "full" else summary_parts decimal s

-- the blob that is stored with a token, and the summary for the audit log
pub data Minted : Type 0 where
  minted : List ℕ → String → Minted
  mint_rejected : ScopeError → Minted
  marshal_failed : Minted

abbrev pub Cached : Type 0
Cached = List (String × CompiledTokenScope)

abbrev pub mint_blob : String → Option (List ℕ) → Minted
mint_blob summary none = marshal_failed
mint_blob summary (some blob) = minted blob summary

-- `proto.Marshal` and `proto.Unmarshal`, the printing of numbers and the hash of a blob
module _ (decimal : ℕ → String) (digest : List ℕ → String) (marshal : TokenScope → Option (List ℕ))
    (unmarshal : List ℕ → Option TokenScope) where
  -- an issuer without a token scope may mint any
  abbrev pub is_broader : Option CompiledTokenScope → CompiledTokenScope → Bool
  is_broader none c = false
  is_broader (some parent) c = not (contains_scope parent c)

  abbrev pub mint_compiled :
      Option CompiledTokenScope → CompiledTokenScope → Option TokenScope → Minted
  mint_compiled parent c none =
      if is_broader parent c then mint_rejected token_scope_broader else minted [] "full"
  mint_compiled parent c (some s) =
      if is_broader parent c
      then mint_rejected token_scope_broader
      else if empty_token_scope (some s)
      then minted [] "full"
      else mint_blob (token_scope_summary decimal s) (marshal s)

  abbrev pub mint_result :
      Option CompiledTokenScope → Option TokenScope → ScopeResult CompiledTokenScope → Minted
  mint_result parent s (rejected e) = mint_rejected e
  mint_result parent s (compiled c) = mint_compiled parent c s

  unfoldable pub token_scope_blob_for_mint : Option CompiledTokenScope → Option TokenScope → Minted
  unfolding compile_token_scope empty_token_scope token_scope_summary
  token_scope_blob_for_mint parent s = mint_result parent s (compile_token_scope s)

  abbrev pub cache_key : String → List ℕ → String
  cache_key token_id blob = if token_id == "" then digest blob else token_id

  -- a blob that the cache has not: `none` is an error
  abbrev pub store_compiled :
      String → Cached → ScopeResult CompiledTokenScope → Option CompiledTokenScope × Cached
  store_compiled key cache (rejected e) = (none, cache)
  store_compiled key cache (compiled c) = (some c, insert key c cache)

  abbrev pub decode_new : String → Cached → Option TokenScope → Option CompiledTokenScope × Cached
  decode_new key cache none = (none, cache)
  decode_new key cache (some s) = store_compiled key cache (compile_token_scope (some s))

  unfoldable pub decode_token_scope : String → List ℕ → Cached → Option CompiledTokenScope × Cached
  unfolding compile_token_scope
  decode_token_scope token_id [] cache = (some empty_scope, cache)
  decode_token_scope token_id (b ∷ bytes) cache =
      elim (lookup (cache_key token_id (b ∷ bytes)) cache) [
        | some c ↦ (some c, cache)
        | none ↦ decode_new (cache_key token_id (b ∷ bytes)) cache (unmarshal (b ∷ bytes))
      ]
