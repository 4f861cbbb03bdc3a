-- ===== src/Policy/Runtime/Decision.antt =====
-- What `authorize` decides, without the reasons.
use gohome.Prelude.{
  ◌≡◌, refl, sym, ◌∙◌, inl, inr, Bool, true, false, not, ◌&&◌, ◌||◌, List, [], ◌∷◌, Option, none,
  some, arith, contains, any, any_elim, any_intro, if◌then◌else◌, ◌==◌, string_eq, Bool-cases,
  contains→mem, mem→contains,
}
use gohome.Policy.Schema.{
  RoleSlug, CompiledRule, Compiled, permits_action, make_action_key, Principal, Action, AuthTarget,
}
use gohome.Policy.Selector.{Target}
use gohome.Policy.Scope.{
  CompiledTokenScope, allow, permits_action_in_scope, action_allowed, contains_scope,
}
use gohome.Policy.Scope.Containment.{IsLiteral, contains_scope_sound, contains_actions_sound}
use gohome.Policy.Runtime.{
  Runtime, ErrForbidden, target_from_auth, rule_matches, rules_of, first_rule, first_role_rule,
  check_scope, check_target, authorize_compiled, authorize,
}

abbrev pub permits : Option ErrForbidden → Bool
permits none = true
permits (some e) = false

-- some rule that the roles have in `m` matches
abbrev pub some_rule : List (RoleSlug × List CompiledRule) → List RoleSlug → Action → Target → Bool
some_rule m roles a t = any (λ role. any (λ rule. rule_matches rule a t) (rules_of role m)) roles

abbrev pub some_permit : Compiled → List RoleSlug → Action → Bool
some_permit c roles a =
    any (λ role. permits_action (some c) role a.verb (make_action_key a.service a.method)) roles

-- the token scope, if there is one, allows the action, and on an entity the target too
abbrev pub scope_permits : Option CompiledTokenScope → Action → AuthTarget → Bool
scope_permits none a t = true
scope_permits (some scope) a t =
    if t.kind == "entity"
    then allow scope (make_action_key a.service a.method) (target_from_auth t)
    else action_allowed scope (make_action_key a.service a.method)

-- on an entity some allow rule matches, and no deny rule does
abbrev pub target_permits : Compiled → List RoleSlug → Action → AuthTarget → Bool
target_permits c roles a t =
    if t.kind == "entity"
    then some_rule c.allow_rules roles a (target_from_auth t)
      && not (some_rule c.deny_rules roles a (target_from_auth t))
    else true

first_rule-any :
    (p : CompiledRule → Bool) (rules : List CompiledRule)
    → (elim (first_rule p rules) [ none ↦ false | some r ↦ true ]) ≡ any p rules
first_rule-any p [] = refl
first_rule-any p (r ∷ rest) = ground (arith, first_rule-any p rest)

pub first_role_rule-any :
    (p : CompiledRule → Bool) (m : List (RoleSlug × List CompiledRule)) (roles : List RoleSlug)
    → (elim (first_role_rule p m roles) [ none ↦ false | some r ↦ true ])
      ≡ any (λ role. any p (rules_of role m)) roles
first_role_rule-any p m [] = refl
first_role_rule-any p m (role ∷ rest) =
    ground (arith, first_rule-any p (rules_of role m), first_role_rule-any p m rest)

permits-check_scope :
    (scope : Option CompiledTokenScope) (a : Action) (t : AuthTarget)
    → permits (check_scope scope a t) ≡ scope_permits scope a t
unfolding check_scope permits_action_in_scope
permits-check_scope scope a t = ground arith

permits-check_target :
    (c : Compiled) (roles : List RoleSlug) (a : Action) (t : AuthTarget)
    → permits (check_target c roles a t) ≡ target_permits c roles a t
unfolding check_target
permits-check_target c roles a t = ground (
  arith,
  first_role_rule-any (λ rule. rule_matches rule a (target_from_auth t)) c.deny_rules roles,
)

permits-authorize_compiled :
    (c : Compiled) (roles : List RoleSlug) (scope : Option CompiledTokenScope) (a : Action)
    (t : AuthTarget)
    → permits (authorize_compiled c roles scope a t)
      ≡ (some_permit c roles a && (scope_permits scope a t && target_permits c roles a t))
unfolding authorize_compiled
permits-authorize_compiled c roles scope a t =
    ground (arith, permits-check_scope scope a t, permits-check_target c roles a t)

-- the decision on the installed artifact, none installed denying
abbrev pub compiled_permits :
    Option Compiled → List RoleSlug → Option CompiledTokenScope → Action → AuthTarget → Bool
compiled_permits none roles scope a t = false
compiled_permits (some c) roles scope a t =
    some_permit c roles a && (scope_permits scope a t && target_permits c roles a t)

-- `authorize` permits exactly the system principal, and any other for which an artifact is
-- installed, some role permits the action, the token scope permits it (and the target of an
-- entity), and on an entity some allow rule of the roles matches and no deny rule of them does.
pub authorize-permits :
    (roles_for : Principal → List RoleSlug) (r : Runtime) (scope : Option CompiledTokenScope)
    (p : Principal) (a : Action) (t : AuthTarget)
    → permits (authorize roles_for r scope p a t)
      ≡ (p.kind == "system" || compiled_permits r.compiled (roles_for p) scope a t)
unfolding authorize
authorize-permits roles_for r scope p a t = elim (Bool-cases (p.kind == "system")) [
  | inl system ↦ rw system refl
  | inr other ↦ rw other (of_artifact r.compiled)
]
  where
    of_artifact :
        (o : Option Compiled)
        → permits (elim o [
          | none ↦ some (record { reason = "no_policy"; rule_name = "" })
          | some c ↦ authorize_compiled c (roles_for p) scope a t
        ])
          ≡ compiled_permits o (roles_for p) scope a t
    of_artifact none = refl
    of_artifact (some c) = permits-authorize_compiled c (roles_for p) scope a t

abbrev pub SameMembers : List RoleSlug → List RoleSlug → Type 0
SameMembers xs ys = (x : RoleSlug) → contains xs x ≡ contains ys x

any-sub :
    (p : RoleSlug → Bool) (xs ys : List RoleSlug)
    → SameMembers xs ys
    → any p xs ≡ true
    → any p ys ≡ true
any-sub p xs ys same h =
    let (x, m, t) = any_elim p xs h in
    any_intro p x ys (contains→mem ys x (sym (same x) ∙ mem→contains xs x m)) t

any-SameMembers :
    (p : RoleSlug → Bool) (xs ys : List RoleSlug) → SameMembers xs ys → any p xs ≡ any p ys
any-SameMembers p xs ys same = elim (Bool-cases (any p xs)) [
  | inl t ↦ ground (arith, any-sub p xs ys same t)
  | inr f ↦ elim (Bool-cases (any p ys)) [
    | inl u ↦ absurd (ground (arith, any-sub p ys xs (λ x. sym (same x)) u))
    | inr g ↦ f ∙ sym g
  ]
]

compiled_permits-SameMembers :
    (o : Option Compiled) (xs ys : List RoleSlug) (scope : Option CompiledTokenScope) (a : Action)
    (t : AuthTarget)
    → SameMembers xs ys
    → compiled_permits o xs scope a t ≡ compiled_permits o ys scope a t
compiled_permits-SameMembers none xs ys scope a t same = refl
compiled_permits-SameMembers (some c) xs ys scope a t same =
    let target = target_from_auth t in
    rw
      (
        any-SameMembers
            (λ role. permits_action (some c) role a.verb (make_action_key a.service a.method)) xs ys
            same,
        any-SameMembers
            (λ role. any (λ rule. rule_matches rule a target) (rules_of role c.allow_rules)) xs ys
            same,
        any-SameMembers
            (λ role. any (λ rule. rule_matches rule a target) (rules_of role c.deny_rules)) xs ys
            same,
      )
      refl

-- The order in which the roles of a principal are ranged over, and repetitions among them, do not
-- change whether `authorize` permits.
pub authorize-order :
    (roles_for roles_for' : Principal → List RoleSlug) (r : Runtime)
    (scope : Option CompiledTokenScope) (p : Principal) (a : Action) (t : AuthTarget)
    → SameMembers (roles_for p) (roles_for' p)
    → permits (authorize roles_for r scope p a t) ≡ permits (authorize roles_for' r scope p a t)
authorize-order roles_for roles_for' r scope p a t same =
    authorize-permits roles_for r scope p a t
    ∙ rw (compiled_permits-SameMembers r.compiled (roles_for p) (roles_for' p) scope a t same)
        (sym (authorize-permits roles_for' r scope p a t))

scope_permits-contained :
    (s child : CompiledTokenScope) (a : Action) (t : AuthTarget)
    → IsLiteral s
    → contains_scope s child ≡ true
    → scope_permits (some child) a t ≡ true
    → scope_permits (some s) a t ≡ true
unfolding contains_scope
scope_permits-contained s child a t lit h k =
    let key = make_action_key a.service a.method in
    ground (
      arith,
      contains_scope_sound s child key (target_from_auth t) lit,
      contains_actions_sound s child key lit,
    )

compiled_permits-scope :
    (o : Option Compiled) (roles : List RoleSlug) (x y : Option CompiledTokenScope) (a : Action)
    (t : AuthTarget)
    → (scope_permits x a t ≡ true → scope_permits y a t ≡ true)
    → compiled_permits o roles x a t ≡ true
    → compiled_permits o roles y a t ≡ true
compiled_permits-scope none roles x y a t weaker h = h
compiled_permits-scope (some c) roles x y a t weaker h = ground arith

-- A token whose scope lies in that of another (one with no allowed action that ends in "*") is
-- permitted nothing that the other is not, whatever the policies.
pub authorize-contained :
    (roles_for : Principal → List RoleSlug) (r : Runtime) (s child : CompiledTokenScope)
    (p : Principal) (a : Action) (t : AuthTarget)
    → IsLiteral s
    → contains_scope s child ≡ true
    → permits (authorize roles_for r (some child) p a t) ≡ true
    → permits (authorize roles_for r (some s) p a t) ≡ true
authorize-contained roles_for r s child p a t lit h k = ground (
  arith,
  authorize-permits roles_for r (some child) p a t,
  authorize-permits roles_for r (some s) p a t,
  compiled_permits-scope r.compiled (roles_for p) (some child) (some s) a t
      (scope_permits-contained s child a t lit h),
)
