-- ===== src/Policy/Runtime/Filter.antt =====
-- `filter_entities` splits the candidates in two.
use gohome.Prelude.{
  ◌≡◌, refl, inl, inr, ◌↔◌, true, false, not, List, [], ◌∷◌, Option, none, some, arith, keep_if,
  FilteredBy, keep_if-FilteredBy, Bool-cases,
}
use gohome.Policy.Schema.{RoleSlug, Verb, Principal}
use gohome.Policy.Selector.{Target}
use gohome.Policy.Scope.{CompiledTokenScope}
use gohome.Policy.Runtime.{
  Runtime, authorize, subscribe_action, entity_target, explicitly_denied, passes, filter_entities,
}
use gohome.Policy.Runtime.Decision.{permits}

module _ (roles_for : Principal → List RoleSlug) (r : Runtime) (scope : Option CompiledTokenScope)
    (p : Principal) (verb : Verb) where
  -- The candidate is permitted, and no deny rule of the roles covers it.
  abbrev pub IsVisible : Target → Type 0
  IsVisible t =
      (permits (authorize roles_for r scope p (subscribe_action verb) (entity_target t)) ≡ true)
      × (explicitly_denied r.compiled (roles_for p) t ≡ false)

  passes_iff : (t : Target) → (passes roles_for r scope p verb t ≡ true) ↔ IsVisible t
  passes_iff t = split (authorize roles_for r scope p (subscribe_action verb) (entity_target t))
    where
      split :
          (o : _)
          → ((elim o [ some e ↦ false | none ↦ not (explicitly_denied r.compiled (roles_for p) t) ])
              ≡ true)
            ↔ ((permits o ≡ true) × (explicitly_denied r.compiled (roles_for p) t ≡ false))
      split none = (λ h. (refl, ground arith), λ h. ground arith)
      split (some e) = (λ h. absurd (cc), λ h. absurd (cc h.0))

  filter-keep_if :
      (candidates : List Target)
      → filter_entities roles_for r scope p verb candidates ≡ (
        keep_if (passes roles_for r scope p verb) candidates,
        keep_if (λ t. not (passes roles_for r scope p verb t)) candidates,
      )
  unfolding filter_entities
  filter-keep_if [] = refl
  filter-keep_if (t ∷ rest) = elim (Bool-cases (passes roles_for r scope p verb t)) [
    | inl yes_it ↦ rw (yes_it, filter-keep_if rest) refl
    | inr no_it ↦ rw (no_it, filter-keep_if rest) refl
  ]

  refused_iff : (t : Target) → (not (passes roles_for r scope p verb t) ≡ true) ↔ ¬ IsVisible t
  refused_iff t = (
    λ h v. cc (h, (passes_iff t).1 v),
    λ v. elim (Bool-cases (passes roles_for r scope p verb t)) [
      | inl h ↦ absurd (v ((passes_iff t).0 h))
      | inr h ↦ rw h refl
    ],
  )

  -- The allowed entities are the candidates that `authorize` permits and that no deny rule of the
  -- roles covers, and the denied ones are the other candidates: in both lists each candidate as
  -- often as it was given, in the order of the candidates.
  pub filter_entities-exact :
      (candidates : List Target)
      → FilteredBy IsVisible candidates (filter_entities roles_for r scope p verb candidates).0
        × FilteredBy
            (λ t. ¬ IsVisible t)
            candidates
            (filter_entities roles_for r scope p verb candidates).1
  filter_entities-exact candidates = rw (filter-keep_if candidates) (
    keep_if-FilteredBy IsVisible (passes roles_for r scope p verb) passes_iff candidates,
    keep_if-FilteredBy (λ t. ¬ IsVisible t) (λ t. not (passes roles_for r scope p verb t))
        refused_iff candidates,
  )
