-- ===== src/Policy/Scope/Containment.antt =====
-- `contains_scope` is sound: a token never grants what the scope that contains it does not.
use gohome.Prelude.{
  String, ◌≡◌, ◌⊎◌, inl, inr, true, false, not, List, arith, contains, any, all, any_elim,
  any_intro, all_elim, is_empty, eq_iff, string_eq, has_prefix_trans, has_star, trim_star,
  contains→mem, mem→contains,
}
use gohome.Policy.Selector.{Target, selector_matches}
use gohome.Policy.Scope.{
  CompiledTokenScope, token_pattern_matches, token_pattern_covers, selector_empty, set_contains_all,
  action_allowed, target_allowed, allow, has_action_narrowing, covers_pattern, contains_actions,
  contains_targets, contains_scope,
}

-- A pattern that covers another matches whatever that one matches.
pub covers-matches :
    (parent child action : String)
    → token_pattern_covers parent child ≡ true
    → token_pattern_matches child action ≡ true
    → token_pattern_matches parent action ≡ true
unfolding token_pattern_covers token_pattern_matches
covers-matches parent child action c m = ground (
  arith,
  eq_iff parent child,
  eq_iff child action,
  has_prefix_trans action (trim_star child) (trim_star parent),
)

-- No allowed action is spelled like a pattern.
abbrev pub IsLiteral : CompiledTokenScope → Type 0
IsLiteral s = all (λ key. not (has_star key)) s.allowed_actions ≡ true

-- the three ways to be allowed
abbrev Listed : CompiledTokenScope → String → Type 0
Listed s action =
    (contains s.allowed_actions action ≡ true)
    ⊎ ((any (λ pattern. token_pattern_matches pattern action) s.allowed_tools ≡ true)
        ⊎ (any (λ pattern. token_pattern_matches pattern action) s.allowed_services ≡ true))

Listed-allowed :
    (s : CompiledTokenScope) (action : String) → Listed s action → action_allowed s action ≡ true
unfolding action_allowed
Listed-allowed s action h = ground arith

allowed-Listed :
    (s : CompiledTokenScope) (action : String)
    → has_action_narrowing s ≡ true
    → action_allowed s action ≡ true
    → Listed s action
unfolding action_allowed has_action_narrowing
allowed-Listed s action n h = ground arith

-- a pattern list that covers `child` matches what `child` matches
any-covers :
    (parents : List String) (child action : String)
    → any (λ parent. token_pattern_covers parent child) parents ≡ true
    → token_pattern_matches child action ≡ true
    → any (λ pattern. token_pattern_matches pattern action) parents ≡ true
any-covers parents child action h m =
    let (p, member, c) = any_elim (λ parent. token_pattern_covers parent child) parents h in
    any_intro (λ pattern. token_pattern_matches pattern action) p parents member
      (covers-matches p child action c m)

literal-covers :
    (keys : List String) (child action : String)
    → all (λ key. not (has_star key)) keys ≡ true
    → any (λ parent. token_pattern_covers parent child) keys ≡ true
    → token_pattern_matches child action ≡ true
    → contains keys action ≡ true
unfolding token_pattern_covers token_pattern_matches
literal-covers keys child action lit h m =
    let (p, member, c) = any_elim (λ parent. token_pattern_covers parent child) keys h in
    let plain = all_elim (λ key. not (has_star key)) p keys member lit in
    let same : p ≡ action = ground (arith, eq_iff p child, eq_iff child action) in
    rw (← same) (mem→contains keys p member)

covers_pattern-allowed :
    (s : CompiledTokenScope) (child action : String)
    → IsLiteral s
    → covers_pattern s child ≡ true
    → token_pattern_matches child action ≡ true
    → action_allowed s action ≡ true
unfolding covers_pattern
covers_pattern-allowed s child action lit h m = Listed-allowed s action (
    ground (
      arith,
      literal-covers s.allowed_actions child action lit,
      any-covers s.allowed_tools child action,
      any-covers s.allowed_services child action,
    ))

all_covered :
    (s : CompiledTokenScope) (patterns : List String) (action : String)
    → IsLiteral s
    → all (λ pattern. covers_pattern s pattern) patterns ≡ true
    → any (λ pattern. token_pattern_matches pattern action) patterns ≡ true
    → action_allowed s action ≡ true
all_covered s patterns action lit covered h =
    let (p, member, m) = any_elim (λ pattern. token_pattern_matches pattern action) patterns h in
    covers_pattern-allowed s p action lit
      (all_elim (λ pattern. covers_pattern s pattern) p patterns member covered) m

no_narrowing-allowed :
    (s : CompiledTokenScope) (action : String)
    → has_action_narrowing s ≡ false
    → action_allowed s action ≡ true
unfolding has_action_narrowing action_allowed
no_narrowing-allowed s action h = ground arith

record CoveredActions (s child : CompiledTokenScope) : Type 0 where
  narrow : has_action_narrowing child ≡ true
  actions : all (λ action. action_allowed s action) child.allowed_actions ≡ true
  tools : all (λ pattern. covers_pattern s pattern) child.allowed_tools ≡ true
  services : all (λ pattern. covers_pattern s pattern) child.allowed_services ≡ true

contains_actions-cases :
    (s child : CompiledTokenScope)
    → contains_actions s child ≡ true
    → (has_action_narrowing s ≡ false) ⊎ CoveredActions s child
unfolding contains_actions
contains_actions-cases s child h = ground arith

pub contains_actions_sound :
    (s child : CompiledTokenScope) (action : String)
    → IsLiteral s
    → contains_actions s child ≡ true
    → action_allowed child action ≡ true
    → action_allowed s action ≡ true
contains_actions_sound s child action lit h a = elim (contains_actions-cases s child h) [
  | inl free ↦ no_narrowing-allowed s action free
  | inr c ↦ elim (allowed-Listed child action c.narrow a) [
    | inl listed ↦
        all_elim (λ key. action_allowed s key) action child.allowed_actions
          (contains→mem child.allowed_actions action listed) c.actions
    | inr (inl tool) ↦ all_covered s child.allowed_tools action lit c.tools tool
    | inr (inr service) ↦ all_covered s child.allowed_services action lit c.services service
  ]
]

subset_contains :
    (parent child : List String) (k : String)
    → set_contains_all parent child ≡ true
    → contains child k ≡ true
    → contains parent k ≡ true
unfolding set_contains_all
subset_contains parent child k h m =
    all_elim (λ key. contains parent key) k child (contains→mem child k m) h

contains_not_empty : (xs : List String) (k : String) → contains xs k ≡ true → is_empty xs ≡ false
contains_not_empty xs k h = ground arith

pub contains_targets_sound :
    (s child : CompiledTokenScope) (t : Target)
    → contains_targets s child ≡ true
    → target_allowed child t ≡ true
    → target_allowed s t ≡ true
unfolding contains_targets target_allowed selector_matches selector_empty
contains_targets_sound s child t h a = ground (
  arith,
  subset_contains s.allowed_targets.area_set child.allowed_targets.area_set t.area,
  subset_contains s.allowed_targets.class_set child.allowed_targets.class_set t.class,
  subset_contains s.allowed_targets.entity_set child.allowed_targets.entity_set t.id,
  contains_not_empty s.allowed_targets.area_set t.area,
  contains_not_empty s.allowed_targets.class_set t.class,
  contains_not_empty s.allowed_targets.entity_set t.id,
)

-- Where no allowed action of `s` ends in "*": if `s` contains `child`, then every action and
-- target that `child` allows is allowed by `s`.
pub contains_scope_sound :
    (s child : CompiledTokenScope) (action : String) (t : Target)
    → IsLiteral s
    → contains_scope s child ≡ true
    → allow child action t ≡ true
    → allow s action t ≡ true
unfolding contains_scope allow
contains_scope_sound s child action t lit h a =
    ground (arith, contains_actions_sound s child action lit, contains_targets_sound s child t)
