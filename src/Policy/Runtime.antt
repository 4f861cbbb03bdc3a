-- ===== src/Policy/Runtime.antt =====
-- internal/policy/runtime.go. The compiled artifact is behind an atomic pointer, and the callbacks
-- behind a mutex: each operation reads or writes the state as a whole. The interface `Roles` is the
-- parameter `roles_for`, whose list stands for the order in which Go ranges over the set; the
-- token scope is what the context carries.
pub mod Decision
pub mod Granted
pub mod Filter
use gohome.Prelude.{
  ℕ, String, Bool, true, false, not, ◌&&◌, List, [], ◌∷◌, ◌++◌, Option, none, some, lookup,
  contains, any, or_zero, is_empty, if◌then◌else◌, ◌==◌, string_eq,
}
use gohome.Policy.Schema.{
  Verb, RoleSlug, CompiledRule, Compiled, permits_action, make_action_key, Principal, Action,
  AuthTarget,
}
use gohome.Policy.Selector.{Target, selector_matches}
use gohome.Policy.Scope.{CompiledTokenScope, allow, permits_action_in_scope}

-- A callback is named by a number.
pub record Runtime : Type 0 where
  pub compiled : Option Compiled
  pub subs : List ℕ

abbrev pub new_runtime : Runtime
new_runtime = record { compiled = none; subs = [] }

-- `Replace` returns the callbacks that it calls, in order.
unfoldable pub replace : Compiled → Runtime → Runtime × List ℕ
replace c r = (record r { compiled = some c }, r.subs)

unfoldable pub on_reload : ℕ → Runtime → Runtime
on_reload fn r = record r { subs = r.subs ++ (fn ∷ []) }

unfoldable pub current_generation : Runtime → ℕ
current_generation r = elim r.compiled [ none ↦ 0 | some c ↦ c.generation ]

pub record ErrForbidden : Type 0 where
  pub reason : String
  pub rule_name : String

abbrev pub forbidden : String → Option ErrForbidden
forbidden reason = some (record { reason = reason; rule_name = "" })

-- `t.Attr["area"]` under a test for nil
abbrev pub attr_of : String → Option (List (String × String)) → String
attr_of k none = ""
attr_of k (some m) = or_zero "" (lookup k m)

unfoldable pub target_from_auth : AuthTarget → Target
target_from_auth t = record {
  kind = t.kind;
  id = t.id;
  area = if t.area == "" then attr_of "area" t.attr else t.area;
  class = if t.class == "" then attr_of "class" t.attr else t.class;
}

unfoldable pub rule_matches : CompiledRule → Action → Target → Bool
rule_matches r a t =
    if not (is_empty r.verbs) && not (contains r.verbs a.verb)
    then false
    else if not (is_empty r.services) && not (contains r.services a.service)
    then false
    else selector_matches r.targets t

abbrev pub rules_of : RoleSlug → List (RoleSlug × List CompiledRule) → List CompiledRule
rules_of role m = or_zero [] (lookup role m)

-- the first rule that passes the test, over all roles in turn
abbrev pub first_rule : (CompiledRule → Bool) → List CompiledRule → Option CompiledRule
first_rule p [] = none
first_rule p (r ∷ rest) = if p r then some r else first_rule p rest

abbrev pub first_role_rule :
    (CompiledRule → Bool)
    → List (RoleSlug × List CompiledRule)
    → List RoleSlug
    → Option CompiledRule
first_role_rule p m [] = none
first_role_rule p m (role ∷ rest) = elim (first_rule p (rules_of role m)) [
  | some r ↦ some r
  | none ↦ first_role_rule p m rest
]

-- the part on token scopes
unfoldable pub check_scope : Option CompiledTokenScope → Action → AuthTarget → Option ErrForbidden
check_scope none a t = none
check_scope (some scope) a t =
    let key = make_action_key a.service a.method in
    if t.kind == "entity"
    then (if not (allow scope key (target_from_auth t))
        then (if not (permits_action_in_scope scope a.verb key)
            then forbidden "token_action_denied"
            else forbidden "token_target_denied")
        else none)
    else if not (permits_action_in_scope scope a.verb key)
    then forbidden "token_action_denied"
    else none

-- the part on targets
unfoldable pub check_target : Compiled → List RoleSlug → Action → AuthTarget → Option ErrForbidden
unfolding target_from_auth rule_matches
check_target c roles a t =
    let target = target_from_auth t in
    if t.kind == "entity"
    then (if not (
          any (λ role. any (λ rule. rule_matches rule a target) (rules_of role c.allow_rules))
            roles)
        then forbidden "target_denied"
        else elim (first_role_rule (λ rule. rule_matches rule a target) c.deny_rules roles) [
          | some rule ↦ some (record { reason = "explicit_deny"; rule_name = rule.policy_name })
          | none ↦ none
        ])
    else none

-- an error of the first check, or else that of the second
abbrev pub or_else : Option ErrForbidden → Option ErrForbidden → Option ErrForbidden
or_else none second = second
or_else (some e) second = some e

unfoldable pub authorize_compiled :
    Compiled → List RoleSlug → Option CompiledTokenScope → Action → AuthTarget → Option ErrForbidden
authorize_compiled c roles scope a t =
    if not
      (any (λ role. permits_action (some c) role a.verb (make_action_key a.service a.method)) roles)
    then forbidden "action_denied"
    else or_else (check_scope scope a t) (check_target c roles a t)

-- `none` is nil, which permits.
unfoldable pub authorize :
    (Principal → List RoleSlug)
    → Runtime
    → Option CompiledTokenScope
    → Principal
    → Action
    → AuthTarget
    → Option ErrForbidden
unfolding authorize_compiled
authorize roles_for r scope p a t = if p.kind == "system" then none else elim r.compiled [
  | none ↦ forbidden "no_policy"
  | some c ↦ authorize_compiled c (roles_for p) scope a t
]

-- the call of `Authorize` for a candidate of `FilterEntities`
abbrev pub subscribe_action : Verb → Action
subscribe_action verb = record { service = "EntityService"; method = "Subscribe"; verb = verb }

abbrev pub entity_target : Target → AuthTarget
entity_target t = record { kind = "entity"; id = t.id; area = t.area; class = t.class; attr = none }

-- some deny rule of the roles covers the candidate, whatever its verbs and services
unfoldable pub explicitly_denied : Option Compiled → List RoleSlug → Target → Bool
explicitly_denied none roles t = false
explicitly_denied (some c) roles t =
    any (λ role. any (λ rule. selector_matches rule.targets t) (rules_of role c.deny_rules)) roles

abbrev pub passes :
    (Principal → List RoleSlug)
    → Runtime
    → Option CompiledTokenScope
    → Principal
    → Verb
    → Target
    → Bool
passes roles_for r scope p verb t =
    elim (authorize roles_for r scope p (subscribe_action verb) (entity_target t)) [
      | some e ↦ false
      | none ↦ not (explicitly_denied r.compiled (roles_for p) t)
    ]

-- The results are (allowed, denied), each in the order of the candidates.
unfoldable pub filter_entities :
    (Principal → List RoleSlug)
    → Runtime
    → Option CompiledTokenScope
    → Principal
    → Verb
    → List Target
    → List Target × List Target
filter_entities roles_for r scope p verb [] = ([], [])
filter_entities roles_for r scope p verb (t ∷ rest) =
    let (allowed, denied) = filter_entities roles_for r scope p verb rest in
    if passes roles_for r scope p verb t then (t ∷ allowed, denied) else (allowed, t ∷ denied)
