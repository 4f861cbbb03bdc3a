-- ===== src/Api/Tests.antt =====
-- Runs of internal/api on small inputs, and the theorems at such inputs.
use gohome.Prelude.{ℕ, String, ◌≡◌, refl, true, not, ◌&&◌, List, [], ◌∷◌, Option, some, all, ◌==◌}
use gohome.Policy.Selector.{Target}
use gohome.Policy.Scope.{
  CompiledTokenScope, contains_scope, contains_actions, contains_targets, allow,
  has_action_narrowing, covers_pattern, token_pattern_covers, selector_empty, set_contains_all,
}
use gohome.Api.TokenScope.{
  TokenScope, wildcard_inside, scope_of, validate_token_scope, token_scope_summary, minted,
  token_scope_blob_for_mint, decode_token_scope,
}
use gohome.Api.TokenScope.Patterns.{is_pattern, is_accepted, validate_token_scope-accepted}
use gohome.Api.TokenScope.Allowed.{default_scope, mint-decode-contained}

abbrev scope_with : String → TokenScope
scope_with pattern = record {
  allow_tools = [];
  allow_services = pattern ∷ [];
  allow_targets = some (record { areas = "kitchen" ∷ []; classes = []; entity_ids = [] });
}

inner_star : validate_token_scope (some (scope_with "Entity*/Get")) ≡ some wildcard_inside
unfolding validate_token_scope
inner_star = refl

validate_token_scope-accepted_example :
    is_accepted (validate_token_scope (some (scope_with "EntityService/*"))) ≡ (
      true
      && (all is_pattern ("EntityService/*" ∷ [])
          && (all (λ item. not (item == "")) ("kitchen" ∷ []) && (true && true))))
validate_token_scope-accepted_example = validate_token_scope-accepted (scope_with "EntityService/*")

-- a token for one service, limited to the kitchen
abbrev issuer : CompiledTokenScope
issuer = scope_of (some (scope_with "EntityService/*"))

abbrev child_scope : TokenScope
child_scope = scope_with "EntityService/Get"

abbrev no_number : ℕ → String
no_number n = "1"

abbrev no_digest : List ℕ → String
no_digest blob = ""

-- a codec that knows one scope
abbrev encode_scope : TokenScope → Option (List ℕ)
encode_scope s = some (1 ∷ [])

abbrev decode_scope : List ℕ → Option TokenScope
decode_scope [] = some default_scope
decode_scope (b ∷ bytes) = some child_scope

abbrev kitchen_light : Target
kitchen_light = record { kind = "entity"; id = "light.kitchen"; area = "kitchen"; class = "Light" }

mint_run :
    token_scope_blob_for_mint no_number no_digest encode_scope decode_scope
      (some issuer)
      (some child_scope)
    ≡ minted (1 ∷ []) "services=1,areas=1"
unfolding token_scope_blob_for_mint token_scope_summary contains_scope contains_actions
    has_action_narrowing covers_pattern token_pattern_covers contains_targets selector_empty
    set_contains_all
mint_run = refl

mint-decode-contained_example :
    ((decode_token_scope no_number no_digest encode_scope decode_scope "tok" (1 ∷ []) []).0
      ≡ some (scope_of (some child_scope)))
    × (allow (scope_of (some child_scope)) "EntityService/Get" kitchen_light ≡ true
        → allow issuer "EntityService/Get" kitchen_light ≡ true)
mint-decode-contained_example =
    mint-decode-contained no_number no_digest encode_scope decode_scope issuer child_scope (1 ∷ [])
      "services=1,areas=1" "tok" [] "EntityService/Get" kitchen_light refl mint_run (λ h. refl) refl
      refl
