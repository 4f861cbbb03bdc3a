-- ===== src/Policy/Explain/Agreement.antt =====
-- `explain` tells what `authorize` decides when no token scope is present.
use mathlib.Core.List.{reverse, reverse-append}
use gohome.Prelude.{
  ℕ, ◌+◌, String, ◌≡◌, refl, sym, ◌∙◌, ap, Option-cases, inl, inr, Bool, true, false, not, ◌||◌,
  List, [], ◌∷◌, ◌++◌, Option, none, some, arith, contains, any, if◌then◌else◌, ◌==◌, string_eq,
  Bool-cases,
}
use gohome.Policy.Schema.{
  RoleSlug, CompiledRule, Compiled, permits_action, make_action_key, Principal, Action, AuthTarget,
}
use gohome.Policy.Runtime.{
  Runtime, ErrForbidden, target_from_auth, rule_matches, rules_of, first_rule, first_role_rule,
  check_scope, check_target, authorize_compiled, authorize,
}
use gohome.Policy.Runtime.Decision.{first_role_rule-any, permits, SameMembers, authorize-order}
use gohome.Policy.Explain.{
  Trace, Line, has_roles, no_role_permits, allowlist_permits, sift, sift_all, sorted_roles,
  first_permitted, find_rule, find_role_rule, explain_rules, explain_target, explain_compiled,
  explain,
}

-- a trace read as the error that it reports, none if the decision is ALLOWED
abbrev pub verdict : Trace → Option ErrForbidden
verdict tr =
    if tr.decision == "ALLOWED"
    then none
    else some (record { reason = tr.reason; rule_name = tr.rule_name })

first_permitted-any :
    (c : Compiled) (verb key : String) (roles : List RoleSlug)
    → (elim (first_permitted c verb key roles) [ none ↦ false | some role ↦ true ])
      ≡ any (λ role. permits_action (some c) role verb key) roles
first_permitted-any c verb key [] = refl
first_permitted-any c verb key (role ∷ rest) = ground (arith, first_permitted-any c verb key rest)

abbrev rule_of : Option (CompiledRule × ℕ) → Option CompiledRule
rule_of none = none
rule_of (some (r, i)) = some r

abbrev role_rule_of : Option (RoleSlug × CompiledRule × ℕ) → Option CompiledRule
role_rule_of none = none
role_rule_of (some (role, r, i)) = some r

rule_of-find_rule :
    (p : CompiledRule → Bool) (i : ℕ) (rules : List CompiledRule)
    → rule_of (find_rule p i rules) ≡ first_rule p rules
rule_of-find_rule p i [] = refl
rule_of-find_rule p i (r ∷ rest) = ground (arith, rule_of-find_rule p (i + 1) rest)

role_rule_of-find :
    (p : CompiledRule → Bool) (m : List (RoleSlug × List CompiledRule)) (roles : List RoleSlug)
    → role_rule_of (find_role_rule p m roles) ≡ first_role_rule p m roles
role_rule_of-find p m [] = refl
role_rule_of-find p m (role ∷ rest) =
    ground (arith, rule_of-find_rule p 0 (rules_of role m), role_rule_of-find p m rest)

-- the error that follows from an allow rule being there, and from the first deny rule
abbrev rules_error : Bool → Option CompiledRule → Option ErrForbidden
rules_error false deny = some (record { reason = "target_denied"; rule_name = "" })
rules_error true none = none
rules_error true (some r) = some (record { reason = "explicit_deny"; rule_name = r.policy_name })

verdict-explain_rules :
    (o d : Option (RoleSlug × CompiledRule × ℕ)) (steps : List Line)
    → verdict (explain_rules o d steps)
      ≡ rules_error (elim (role_rule_of o) [ none ↦ false | some r ↦ true ]) (role_rule_of d)
unfolding explain_rules
verdict-explain_rules none d steps = refl
verdict-explain_rules (some (role, r, i)) none steps = refl
verdict-explain_rules (some (role, r, i)) (some (role', r', i')) steps = refl

check_target-entity :
    (c : Compiled) (roles : List RoleSlug) (a : Action) (t : AuthTarget)
    → (t.kind == "entity") ≡ true
    → check_target c roles a t
      ≡ rules_error
          (any
            (λ role.
              any (λ rule. rule_matches rule a (target_from_auth t)) (rules_of role c.allow_rules))
            roles)
          (first_role_rule (λ rule. rule_matches rule a (target_from_auth t)) c.deny_rules roles)
unfolding check_target
check_target-entity c roles a t entity = rw entity (
    split
      (any
        (λ role.
          any (λ rule. rule_matches rule a (target_from_auth t)) (rules_of role c.allow_rules))
        roles)
      (first_role_rule (λ rule. rule_matches rule a (target_from_auth t)) c.deny_rules roles))
  where
    split :
        (b : Bool) (d : Option CompiledRule)
        → (if not b then some (record { reason = "target_denied"; rule_name = "" }) else elim d [
          | some rule ↦ some (record { reason = "explicit_deny"; rule_name = rule.policy_name })
          | none ↦ none
        ])
          ≡ rules_error b d
    split false d = refl
    split true none = refl
    split true (some r) = refl

verdict-explain_target :
    (c : Compiled) (roles : List RoleSlug) (a : Action) (t : AuthTarget) (steps : List Line)
    → verdict (explain_target c roles a t steps) ≡ check_target c roles a t
unfolding explain_target
verdict-explain_target c roles a t steps =
    let p = λ (rule : CompiledRule). rule_matches rule a (target_from_auth t) in
    elim (Bool-cases (t.kind == "entity")) [
      | inl entity ↦ rw entity (
          verdict-explain_rules (find_role_rule p c.allow_rules roles)
            (find_role_rule p c.deny_rules roles) steps
          ∙ rw
              (
                role_rule_of-find p c.allow_rules roles,
                role_rule_of-find p c.deny_rules roles,
                first_role_rule-any p c.allow_rules roles,
              )
              (sym (check_target-entity c roles a t entity)))
      | inr other ↦ rw other (unfold check_target in rw other refl)
    ]

verdict-explain_compiled :
    (c : Compiled) (roles : List RoleSlug) (a : Action) (t : AuthTarget) (steps : List Line)
    → verdict (explain_compiled c roles a t steps) ≡ authorize_compiled c roles none a t
unfolding explain_compiled authorize_compiled check_scope
verdict-explain_compiled c roles a t steps =
    split (first_permitted c a.verb (make_action_key a.service a.method) roles)
      (first_permitted-any c a.verb (make_action_key a.service a.method) roles)
  where
    split :
        (o : Option RoleSlug)
        → (elim o [ none ↦ false | some role ↦ true ])
          ≡ any
              (λ role. permits_action (some c) role a.verb (make_action_key a.service a.method))
              roles
        → verdict (elim o [
          | none ↦ record {
            decision = "DENIED";
            reason = "action_denied";
            rule_name = "";
            steps = steps ++ (no_role_permits a.verb (make_action_key a.service a.method) ∷ []);
          }
          | some role ↦
              explain_target c roles a t
                (steps ++ (allowlist_permits role a.verb (make_action_key a.service a.method) ∷ []))
        ])
          ≡ authorize_compiled c roles none a t
    split none e = rw (← e) refl
    split (some role) e = rw (← e) (verdict-explain_target c roles a t _)

-- Where an artifact is installed, the trace reports exactly what `authorize` returns when it
-- carries no token scope and ranges over the roles in sorted order: permission, or the same reason
-- with the same rule.
pub explain-authorize :
    (roles_for : Principal → List RoleSlug) (r : Runtime) (c : Compiled) (p : Principal)
    (a : Action) (t : AuthTarget)
    → r.compiled ≡ some c
    → verdict (explain roles_for r p a t) ≡ authorize (λ q. sorted_roles (roles_for q)) r none p a t
unfolding explain authorize
explain-authorize roles_for r c p a t installed = elim (Bool-cases (p.kind == "system")) [
  | inl system ↦ rw system refl
  | inr other ↦
      rw (other, installed)
        (verdict-explain_compiled c (sorted_roles (roles_for p)) a t
          (has_roles p.id (sorted_roles (roles_for p)) ∷ []))
]

contains-sift :
    (x : RoleSlug) (above : List RoleSlug) (k : RoleSlug)
    → contains (sift x above) k ≡ (x == k || contains above k)
unfolding sift
contains-sift x [] k = refl
contains-sift x (y ∷ above) k = ground (arith, contains-sift x above k)

contains-sift_all :
    (roles above : List RoleSlug) (k : RoleSlug)
    → contains (sift_all roles above) k ≡ (contains roles k || contains above k)
unfolding sift_all
contains-sift_all [] above k = refl
contains-sift_all (x ∷ rest) above k =
    contains-sift_all rest (sift x above) k ∙ ground (arith, contains-sift x above k)

contains-append :
    (xs ys : List RoleSlug) (k : RoleSlug)
    → contains (xs ++ ys) k ≡ (contains xs k || contains ys k)
contains-append [] ys k = refl
contains-append (x ∷ xs) ys k = ground (arith, contains-append xs ys k)

contains-reverse : (xs : List RoleSlug) (k : RoleSlug) → contains (reverse xs) k ≡ contains xs k
contains-reverse [] k = refl
contains-reverse (x ∷ xs) k =
    rw (reverse-append (x ∷ []) xs)
      (contains-append (reverse xs) (x ∷ []) k ∙ ground (arith, contains-reverse xs k))

sorted_roles-SameMembers : (roles : List RoleSlug) → SameMembers (sorted_roles roles) roles
unfolding sorted_roles
sorted_roles-SameMembers roles k =
    contains-reverse (sift_all roles []) k ∙ contains-sift_all roles [] k ∙ ground arith

no_artifact :
    (roles_for : Principal → List RoleSlug) (r : Runtime) (p : Principal) (a : Action)
    (t : AuthTarget)
    → r.compiled ≡ none
    → permits (verdict (explain roles_for r p a t)) ≡ permits (authorize roles_for r none p a t)
unfolding explain authorize
no_artifact roles_for r p a t missing = elim (Bool-cases (p.kind == "system")) [
  | inl system ↦ rw system refl
  | inr other ↦ rw (other, missing) refl
]

-- The decision of the trace is ALLOWED exactly if `authorize` permits the request when it carries
-- no token scope, in whatever order it ranges over the roles, and whether or not an artifact is
-- installed.
pub explain-permits :
    (roles_for : Principal → List RoleSlug) (r : Runtime) (p : Principal) (a : Action)
    (t : AuthTarget)
    → permits (verdict (explain roles_for r p a t)) ≡ permits (authorize roles_for r none p a t)
explain-permits roles_for r p a t = elim (Option-cases r.compiled) [
  | inl missing ↦ no_artifact roles_for r p a t missing
  | inr (c, installed) ↦
      ap permits (explain-authorize roles_for r c p a t installed)
      ∙ authorize-order (λ q. sorted_roles (roles_for q)) roles_for r none p a t
          (sorted_roles-SameMembers (roles_for p))
]
