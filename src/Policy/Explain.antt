-- ===== src/Policy/Explain.antt =====
-- internal/policy/explain.go. A line of the trace is a value that holds what its text prints.
pub mod Agreement
use Prim.Native.String.{compare}
use Prim.Native.Nat.{Ordering}
use mathlib.Core.List.{reverse}
use gohome.Prelude.{
  ℕ, zero, suc, ◌+◌, String, Bool, true, false, not, List, [], ◌∷◌, ◌++◌, Option, none, some,
  if◌then◌else◌, ◌==◌,
}
use gohome.Policy.Schema.{
  Verb, RoleSlug, ActionKey, CompiledRule, Compiled, permits_action, make_action_key, Principal,
  Action, AuthTarget,
}
use gohome.Policy.Selector.{Target}
use gohome.Policy.Runtime.{Runtime, target_from_auth, rule_matches, rules_of}

pub data Line : Type 0 where
  bypass : Line
  has_roles : String → List RoleSlug → Line
  allowlist_permits : RoleSlug → Verb → ActionKey → Line
  no_role_permits : Verb → ActionKey → Line
  allow_rule : RoleSlug → String → ℕ → Line
  no_allow_rule : Line
  deny_rule : RoleSlug → String → ℕ → Line

pub record Trace : Type 0 where
  pub decision : String
  pub reason : String
  pub rule_name : String
  pub steps : List Line

abbrev str_gt : String → String → Bool
str_gt a b = elim (compare a b) [ Ordering.gt ↦ true | _ ↦ false ]

-- the inner loop: the new role moves down past the larger ones; `above` is what precedes it, last
-- element first
unfoldable pub sift : RoleSlug → List RoleSlug → List RoleSlug
sift x [] = x ∷ []
sift x (y ∷ above) = let later = sift x above in if str_gt y x then y ∷ later else x ∷ y ∷ above

unfoldable pub sift_all : List RoleSlug → List RoleSlug → List RoleSlug
unfolding sift
sift_all [] above = above
sift_all (x ∷ rest) above = sift_all rest (sift x above)

unfoldable pub sorted_roles : List RoleSlug → List RoleSlug
unfolding sift_all
sorted_roles roles = reverse (sift_all roles [])

-- the first role that the allowlist permits
abbrev pub first_permitted : Compiled → Verb → ActionKey → List RoleSlug → Option RoleSlug
first_permitted c verb key [] = none
first_permitted c verb key (role ∷ rest) =
    if permits_action (some c) role verb key then some role else first_permitted c verb key rest

-- the first matching rule, with its index
abbrev pub find_rule : (CompiledRule → Bool) → ℕ → List CompiledRule → Option (CompiledRule × ℕ)
find_rule p i [] = none
find_rule p i (r ∷ rest) = if p r then some (r, i) else find_rule p (i + 1) rest

abbrev pub find_role_rule :
    (CompiledRule → Bool)
    → List (RoleSlug × List CompiledRule)
    → List RoleSlug
    → Option (RoleSlug × CompiledRule × ℕ)
find_role_rule p m [] = none
find_role_rule p m (role ∷ rest) = elim (find_rule p 0 (rules_of role m)) [
  | some (r, i) ↦ some (role, r, i)
  | none ↦ find_role_rule p m rest
]

abbrev denied : String → String → List Line → Trace
denied reason rule_name steps = record {
  decision = "DENIED";
  reason = reason;
  rule_name = rule_name;
  steps = steps;
}

abbrev allowed : List Line → Trace
allowed steps = record { decision = "ALLOWED"; reason = ""; rule_name = ""; steps = steps }

-- what follows from the first allow rule and the first deny rule that match
unfoldable pub explain_rules :
    Option (RoleSlug × CompiledRule × ℕ) → Option (RoleSlug × CompiledRule × ℕ) → List Line → Trace
explain_rules none deny steps = denied "target_denied" "" (steps ++ (no_allow_rule ∷ []))
explain_rules (some (role, r, i)) none steps =
    allowed (steps ++ (allow_rule role r.policy_name i ∷ []))
explain_rules (some (role, r, i)) (some (role', r', i')) steps =
    denied "explicit_deny" r'.policy_name
      (steps ++ (allow_rule role r.policy_name i ∷ deny_rule role' r'.policy_name i' ∷ []))

-- the part on targets, from the steps so far
unfoldable pub explain_target : Compiled → List RoleSlug → Action → AuthTarget → List Line → Trace
unfolding explain_rules
explain_target c roles a t steps =
    let p = λ (rule : CompiledRule). rule_matches rule a (target_from_auth t) in
    if t.kind == "entity"
    then explain_rules (find_role_rule p c.allow_rules roles) (find_role_rule p c.deny_rules roles)
        steps
    else allowed steps

unfoldable pub explain_compiled : Compiled → List RoleSlug → Action → AuthTarget → List Line → Trace
explain_compiled c roles a t steps =
    let key = make_action_key a.service a.method in
    elim (first_permitted c a.verb key roles) [
      | none ↦ denied "action_denied" "" (steps ++ (no_role_permits a.verb key ∷ []))
      | some role ↦ explain_target c roles a t (steps ++ (allowlist_permits role a.verb key ∷ []))
    ]

-- With no artifact installed the nil `*Compiled` permits no action, so nothing more of it is read.
unfoldable pub explain :
    (Principal → List RoleSlug) → Runtime → Principal → Action → AuthTarget → Trace
unfolding explain_compiled sorted_roles
explain roles_for r p a t =
    let roles = sorted_roles (roles_for p) in
    if p.kind == "system"
    then record {
      decision = "ALLOWED";
      reason = "system_bypass";
      rule_name = "";
      steps = bypass ∷ [];
    }
    else elim r.compiled [
      | some c ↦ explain_compiled c roles a t (has_roles p.id roles ∷ [])
      | none ↦
          denied "action_denied" "" (
            has_roles p.id roles ∷ no_role_permits a.verb (make_action_key a.service a.method) ∷ [])
    ]
