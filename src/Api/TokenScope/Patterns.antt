-- ===== src/Api/TokenScope/Patterns.antt =====
-- Which scopes are valid.
use gohome.Prelude.{
  ◌+◌, String, ◌≡◌, refl, Bool, true, false, not, ◌&&◌, List, [], ◌∷◌, Option, none, some, arith,
  all, eqb, string_eq, has_star, trim_star, ◌==◌, if◌then◌else◌, Bool-cases, inl, inr,
}
use Prim.Native.Char.{code}
use gohome.Api.TokenScope.{
  TokenScope, ScopeError, count_stars, targets_of, validate_token_scope_pattern, validate_patterns,
  validate_items, first_error, validate_token_scope,
}

-- no star anywhere
abbrev pub is_plain : String → Bool
is_plain String.[] = true
is_plain (String.◌∷◌ c s) = not (eqb (code c) b'*') && is_plain s

-- a text that is not empty and has no star but its last character
abbrev pub is_pattern : String → Bool
is_pattern p = not (p == "") && is_plain (trim_star p)

plain-count : (s : String) → eqb (count_stars s) 0 ≡ is_plain s
unfolding count_stars
plain-count String.[] = refl
plain-count (String.◌∷◌ c s) = ground (arith, plain-count s)

trim-count :
    (s : String) → count_stars s ≡ count_stars (trim_star s) + (if has_star s then 1 else 0)
unfolding count_stars
trim-count String.[] = refl
trim-count (String.◌∷◌ c String.[]) = elim (Bool-cases (eqb (code c) b'*')) [
  | inl star ↦ rw star refl
  | inr other ↦ rw other (rw other refl)
]
trim-count (String.◌∷◌ c (String.◌∷◌ d s)) = ground (arith, trim-count (String.◌∷◌ d s))

abbrev pub is_accepted : Option ScopeError → Bool
is_accepted none = true
is_accepted (some e) = false

accepted-pattern : (p : String) → is_accepted (validate_token_scope_pattern p) ≡ is_pattern p
unfolding validate_token_scope_pattern
accepted-pattern p = ground (arith, trim-count p, plain-count (trim_star p))

accepted-patterns : (l : List String) → is_accepted (validate_patterns l) ≡ all is_pattern l
accepted-patterns [] = refl
accepted-patterns (p ∷ l) = ground (arith, accepted-pattern p, accepted-patterns l)

accepted-items :
    (e : ScopeError) (l : List String)
    → is_accepted (validate_items e l) ≡ all (λ item. not (item == "")) l
accepted-items e [] = refl
accepted-items e (item ∷ l) = ground (arith, accepted-items e l)

accepted-first_error :
    (a b : Option ScopeError) {x y : Bool}
    → is_accepted a ≡ x
    → is_accepted b ≡ y
    → is_accepted (first_error a b) ≡ (x && y)
accepted-first_error none b h k = rw⁻¹ h k
accepted-first_error (some e) b h k = rw⁻¹ h refl

-- A scope is valid if and only if each pattern is not empty and has no star except at its end, and
-- no area, class or entity is empty.
pub validate_token_scope-accepted :
    (s : TokenScope)
    → is_accepted (validate_token_scope (some s)) ≡ (
        all is_pattern s.allow_tools
        && (all is_pattern s.allow_services
            && (all (λ item. not (item == "")) (targets_of s).areas
                && (all (λ item. not (item == "")) (targets_of s).classes
                    && all (λ item. not (item == "")) (targets_of s).entity_ids))))
unfolding validate_token_scope
validate_token_scope-accepted s = accepted-first_error _ _ (accepted-patterns s.allow_tools) (
    accepted-first_error _ _ (accepted-patterns s.allow_services) (
      accepted-first_error _ _ (accepted-items _ (targets_of s).areas) (
        accepted-first_error _ _ (accepted-items _ (targets_of s).classes)
          (accepted-items _ (targets_of s).entity_ids))))
