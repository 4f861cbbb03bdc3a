-- ===== src/Policy/Compile.antt =====
-- internal/policy/compiler.go: the allowlist and `Compile`.
pub mod Allowlist
use gohome.Prelude.{
  ℕ, ◌+◌, ◌%◌, ◌^◌, String, Bool, true, false, not, ◌||◌, List, [], ◌∷◌, ◌++◌, Option, none, some,
  lookup, insert, add, any, or_zero, is_empty, if◌then◌else◌, ◌==◌, string_eq, pair_eq,
}
use gohome.Policy.Schema.{
  Verb, RoleSlug, ActionKey, all_verbs, CompiledRule, Compiled, make_action_key,
}
use gohome.Policy.Selector.{AreaTree}
use gohome.Policy.Roles.{RoleGraph, resolve_role_inheritance}
use gohome.Policy.Rule.{
  RawRule, RawPolicy, CatalogAction, ActionCatalog, Attempt, got, failed, ◌>>=◌, cycle,
  compile_rule, index_catalog, known_services_of, sort_strings,
}

-- `out.ActionAllowlist[key][action] = struct{}{}`, the inner map made if it is missing
unfoldable pub allow_one : RoleSlug → Verb → ActionKey → Compiled → Compiled
allow_one role v action out = record out {
  action_allowlist =
      insert (role, v) (add action (or_zero [] (lookup (role, v) out.action_allowlist)))
        out.action_allowlist;
}

-- the loop over the verbs
unfoldable pub allow_verbs : RoleSlug → CatalogAction → List Verb → Compiled → Compiled
unfolding allow_one
allow_verbs role a [] out = out
allow_verbs role a (v ∷ rest) out =
    allow_verbs role a rest
      (if not (v == a.verb) then out else allow_one role v (make_action_key a.service a.method) out)

abbrev pub service_listed : RawRule → CatalogAction → Bool
service_listed rr a = is_empty rr.services || any (λ svc. svc == a.service) rr.services

-- the loop over the actions
unfoldable pub allow_actions :
    RoleSlug → RawRule → List Verb → List CatalogAction → Compiled → Compiled
unfolding allow_verbs
allow_actions role rr verbs [] out = out
allow_actions role rr verbs (a ∷ rest) out =
    allow_actions role rr verbs rest
      (if not (service_listed rr a) then out else allow_verbs role a verbs out)

abbrev pub verbs_of : RawRule → List Verb
verbs_of rr = if is_empty rr.verbs then all_verbs else rr.verbs

unfoldable pub add_to_action_allowlist : Compiled → RoleSlug → RawRule → ActionCatalog → Compiled
unfolding allow_actions
add_to_action_allowlist out role rr catalog =
    allow_actions role rr (verbs_of rr) catalog.actions out

abbrev pub append_rule :
    RoleSlug
    → CompiledRule
    → List (RoleSlug × List CompiledRule)
    → List (RoleSlug × List CompiledRule)
append_rule role cr m = insert role (or_zero [] (lookup role m) ++ (cr ∷ [])) m

-- What the loops of `Compile` do not change.
pub record Input : Type 0 where
  pub digest : List ℕ → String
  pub areas : AreaTree
  pub catalog : ActionCatalog

abbrev pub rule_with :
    Input → String → RawRule → Bool → Compiled → Attempt (CompiledRule × Compiled)
rule_with i name rr is_deny out =
    compile_rule i.digest name rr i.areas (index_catalog i.catalog.actions [])
      (known_services_of i.catalog.actions) out is_deny

unfoldable pub compile_allows :
    Input → String → RoleSlug → List RawRule → Compiled → Attempt Compiled
unfolding add_to_action_allowlist
compile_allows i name role [] out = got out
compile_allows i name role (rr ∷ rest) out = do
  compiled ← rule_with i name rr false out
  let sink = compiled.1
  let out' = record sink { allow_rules = append_rule role compiled.0 sink.allow_rules }
  compile_allows i name role rest (add_to_action_allowlist out' role rr i.catalog)

unfoldable pub compile_denies :
    Input → String → RoleSlug → List RawRule → Compiled → Attempt Compiled
compile_denies i name role [] out = got out
compile_denies i name role (rr ∷ rest) out = do
  compiled ← rule_with i name rr true out
  let sink = compiled.1
  compile_denies i name role rest
      (record sink { deny_rules = append_rule role compiled.0 sink.deny_rules })

unfoldable pub compile_subjects : Input → RawPolicy → List RoleSlug → Compiled → Attempt Compiled
unfolding compile_allows compile_denies
compile_subjects i rp [] out = got out
compile_subjects i rp (role ∷ rest) out = do
  allowed ← compile_allows i rp.name role rp.allow out
  denied ← compile_denies i rp.name role rp.deny allowed
  compile_subjects i rp rest denied

unfoldable pub compile_policies : Input → List RawPolicy → Compiled → Attempt Compiled
unfolding compile_subjects
compile_policies i [] out = got out
compile_policies i (rp ∷ rest) out = do
  out' ← compile_subjects i rp rp.subjects out
  compile_policies i rest out'

abbrev pub blank : ℕ → List (RoleSlug × List RoleSlug) → Compiled
blank generation inheritance = record {
  generation = generation;
  action_allowlist = [];
  allow_rules = [];
  deny_rules = [];
  area_expansion = [];
  role_inheritance = inheritance;
}

-- The package's counter `generation` comes in and goes out: it is a uint64 that wraps, and grows
-- only if the roles resolve.
unfoldable pub compile : Input → List RawPolicy → RoleGraph → ℕ → Attempt Compiled × ℕ
unfolding compile_policies
compile i raw_policies roles generation = elim (resolve_role_inheritance roles) [
  | none ↦ (failed cycle, generation)
  | some inheritance ↦ (
    compile_policies i raw_policies (blank ((generation + 1) % 2 ^ 64) inheritance),
    (generation + 1) % 2 ^ 64,
  )
]

unfoldable pub sorted_actions_for_role : Compiled → RoleSlug → Verb → Option (List ActionKey)
sorted_actions_for_role c role verb = elim (lookup (role, verb) c.action_allowlist) [
  | none ↦ none
  | some set ↦ some (sort_strings set)
]
