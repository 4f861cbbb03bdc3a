-- ===== src/Policy/Runtime/Granted.antt =====
-- What an installed artifact lets through, by the policies that it was compiled from.
use gohome.Prelude.{
  ℕ, ◌≡◌, refl, sym, ap, ◌∙◌, Bool, true, false, ◌&&◌, ◌||◌, List, [], ◌∷◌, Option, some, arith,
  any, ◌==◌, string_eq,
}
use gohome.Policy.Schema.{
  RoleSlug, Compiled, Verb, ActionKey, make_action_key, Principal, Action, AuthTarget,
}
use gohome.Policy.Scope.{CompiledTokenScope}
use gohome.Policy.Roles.{RoleGraph}
use gohome.Policy.Rule.{RawPolicy, RawRule, CatalogAction, got}
use gohome.Policy.Compile.{Input, compile}
use gohome.Policy.Compile.Allowlist.{rule_grants, granted, compile-allowlist}
use gohome.Policy.Runtime.{Runtime, authorize}
use gohome.Policy.Runtime.Decision.{
  permits, some_permit, scope_permits, target_permits, compiled_permits, authorize-permits,
}

any-ext :
    {A : Type 0} (p q : A → Bool) → ((x : A) → p x ≡ q x) → (xs : List A) → any p xs ≡ any q xs
any-ext p q h [] = refl
any-ext p q h (x ∷ xs) = rw (h x, any-ext p q h xs) refl

any-never : {A : Type 0} (p : A → Bool) → ((x : A) → p x ≡ false) → (xs : List A) → any p xs ≡ false
any-never p h [] = refl
any-never p h (x ∷ xs) = rw (h x, any-never p h xs) refl

-- some role of the list is granted the action by the policies
abbrev pub some_grant : List CatalogAction → List RawPolicy → List RoleSlug → Action → Bool
some_grant catalog policies roles a =
    any (λ role. granted catalog policies role a.verb (make_action_key a.service a.method)) roles

some_permit-grant :
    (i : Input) (policies : List RawPolicy) (graph : RoleGraph) (generation : ℕ) (c : Compiled)
    (roles : List RoleSlug) (a : Action)
    → (compile i policies graph generation).0 ≡ got c
    → some_permit c roles a ≡ some_grant i.catalog.actions policies roles a
some_permit-grant i policies graph generation c roles a h =
    any-ext _ _
      (λ role.
        compile-allowlist i policies graph generation c role a.verb
          (make_action_key a.service a.method) h)
      roles

-- `authorize` on an installed artifact, by the raw policies
decided :
    (i : Input) (policies : List RawPolicy) (graph : RoleGraph) (generation : ℕ) (c : Compiled)
    (roles_for : Principal → List RoleSlug) (r : Runtime) (scope : Option CompiledTokenScope)
    (p : Principal) (a : Action) (t : AuthTarget)
    → (compile i policies graph generation).0 ≡ got c
    → r.compiled ≡ some c
    → permits (authorize roles_for r scope p a t) ≡ (
        p.kind == "system"
        || (some_grant i.catalog.actions policies (roles_for p) a
            && (scope_permits scope a t && target_permits c (roles_for p) a t)))
decided i policies graph generation c roles_for r scope p a t made installed =
    authorize-permits roles_for r scope p a t
    ∙ ap (λ o. p.kind == "system" || compiled_permits o (roles_for p) scope a t) installed
    ∙ ap
        (λ b.
          p.kind == "system"
          || (b && (scope_permits scope a t && target_permits c (roles_for p) a t)))
        (some_permit-grant i policies graph generation c (roles_for p) a made)

needs_grant :
    (system grant rest : Bool) → system ≡ false → (system || (grant && rest)) ≡ true → grant ≡ true
needs_grant system grant rest other h = ground arith

-- With an artifact that `Compile` made of some policies installed, `authorize` permits a principal
-- that is not the system only actions that an allow rule of these policies, by the catalog of the
-- compilation, grants to one of its roles.
pub authorize-granted :
    (i : Input) (policies : List RawPolicy) (graph : RoleGraph) (generation : ℕ) (c : Compiled)
    (roles_for : Principal → List RoleSlug) (r : Runtime) (scope : Option CompiledTokenScope)
    (p : Principal) (a : Action) (t : AuthTarget)
    → (compile i policies graph generation).0 ≡ got c
    → r.compiled ≡ some c
    → (p.kind == "system") ≡ false
    → permits (authorize roles_for r scope p a t) ≡ true
    → some_grant i.catalog.actions policies (roles_for p) a ≡ true
authorize-granted i policies graph generation c roles_for r scope p a t made installed other h =
    needs_grant (p.kind == "system") _ _ other
      (sym (decided i policies graph generation c roles_for r scope p a t made installed) ∙ h)

granted-nothing :
    (policies : List RawPolicy) (role : RoleSlug) (verb : Verb) (key : ActionKey)
    → granted [] policies role verb key ≡ false
granted-nothing policies role verb key =
    any-never _ (λ rp. any-never _ (λ subject. nobody (subject == role) rp.allow) rp.subjects)
      policies
  where
    nobody :
        (b : Bool) (rules : List RawRule)
        → (b && any (λ rr. rule_grants [] rr verb key) rules) ≡ false
    nobody b rules =
        rw (any-never (λ rr. rule_grants [] rr verb key) (λ rr. refl) rules) (ground arith)

granted_to_none :
    (policies : List RawPolicy) (roles : List RoleSlug) (a : Action)
    → some_grant [] policies roles a ≡ false
granted_to_none policies roles a =
    any-never _ (λ role. granted-nothing policies role a.verb (make_action_key a.service a.method))
      roles

-- An artifact compiled with an empty catalog permits the system principal only, whatever the
-- policies say.
pub authorize-empty_catalog :
    (i : Input) (policies : List RawPolicy) (graph : RoleGraph) (generation : ℕ) (c : Compiled)
    (roles_for : Principal → List RoleSlug) (r : Runtime) (scope : Option CompiledTokenScope)
    (p : Principal) (a : Action) (t : AuthTarget)
    → i.catalog.actions ≡ []
    → (compile i policies graph generation).0 ≡ got c
    → r.compiled ≡ some c
    → permits (authorize roles_for r scope p a t) ≡ (p.kind == "system")
authorize-empty_catalog i policies graph generation c roles_for r scope p a t nothing made
      installed =
    decided i policies graph generation c roles_for r scope p a t made installed
    ∙ rw (nothing, granted_to_none policies (roles_for p) a) (alone (p.kind == "system"))
  where
    alone : (b : Bool) → (b || false) ≡ b
    alone b = ground arith
