-- ===== src/Api/TokenScope/Allowed.antt =====
-- A token that a limited token mints.
use gohome.Prelude.{
  ℕ, String, ◌≡◌, ◌⊎◌, refl, sym, ap, ◌∙◌, Bool, true, false, ◌&&◌, List, [], ◌∷◌, Option, none,
  some, is_empty, lookup, string_eq, inl, inr,
}
use gohome.Policy.Selector.{Target}
use gohome.Policy.Scope.{CompiledTokenScope, contains_scope, allow}
use gohome.Policy.Scope.Containment.{IsLiteral, contains_scope_sound}
use gohome.Api.TokenScope.{
  TokenScope, TokenTargetSelector, ScopeResult, ScopeError, compiled, rejected, targets_of,
  empty_scope, scope_of, string_set, compile_token_target_selector, compile_token_scope,
  validate_token_scope, empty_token_scope, minted, Cached, token_scope_blob_for_mint, cache_key,
  decode_token_scope,
}

abbrev pub default_scope : TokenScope
default_scope = record { allow_tools = []; allow_services = []; allow_targets = none }

abbrev of_lists :
    List String → List String → List String → List String → List String → CompiledTokenScope
of_lists tools services areas classes entities = record {
  allowed_actions = [];
  allowed_tools = tools;
  allowed_services = services;
  allowed_targets = record {
    hash = "";
    area_set = string_set areas;
    class_set = string_set classes;
    entity_set = string_set entities;
    match_any = false;
  };
}

abbrev lists_of : List String → List String → TokenTargetSelector → CompiledTokenScope
lists_of tools services sel = of_lists tools services sel.areas sel.classes sel.entity_ids

scope_of-lists :
    (s : TokenScope) → scope_of (some s) ≡ lists_of s.allow_tools s.allow_services (targets_of s)
unfolding compile_token_target_selector string_set
scope_of-lists s = of_targets s.allow_tools s.allow_services s.allow_targets
  where
    of_targets :
        (tools services : List String) (sel : Option TokenTargetSelector)
        → scope_of
            (some (record { allow_tools = tools; allow_services = services; allow_targets = sel }))
          ≡ lists_of tools services (
              targets_of
                (record { allow_tools = tools; allow_services = services; allow_targets = sel }))
    of_targets tools services none = refl
    of_targets tools services (some sel) = refl

empty-of_lists :
    (tools services areas classes entities : List String)
    → (is_empty tools
        && is_empty services
        && is_empty areas
        && is_empty classes
        && is_empty entities)
      ≡ true
    → of_lists tools services areas classes entities ≡ empty_scope
unfolding string_set
empty-of_lists [] [] [] [] [] h = refl
empty-of_lists _ _ _ _ _ h = cc

-- a scope that says nothing compiles to the one that allows all
empty-scope_of :
    (s : TokenScope) → empty_token_scope (some s) ≡ true → scope_of (some s) ≡ empty_scope
unfolding empty_token_scope
empty-scope_of s h =
    scope_of-lists s
    ∙ empty-of_lists s.allow_tools s.allow_services (targets_of s).areas (targets_of s).classes
        (targets_of s).entity_ids h

-- an accepted scope compiles to what it says
compile-scope_of :
    (s : TokenScope) (r : ScopeResult CompiledTokenScope)
    → compile_token_scope (some s) ≡ r
    → (r ≡ compiled (scope_of (some s))) ⊎ ((e : ScopeError) × (r ≡ rejected e))
unfolding compile_token_scope
compile-scope_of s r h = of_error (validate_token_scope (some s)) h
  where
    of_error :
        (e : Option ScopeError)
        → (elim e [ some why ↦ rejected why | none ↦ compiled (scope_of (some s)) ]) ≡ r
        → (r ≡ compiled (scope_of (some s))) ⊎ ((e : ScopeError) × (r ≡ rejected e))
    of_error none h = inl (sym h)
    of_error (some why) h = inr (why, sym h)

module _ (decimal : ℕ → String) (digest : List ℕ → String) (marshal : TokenScope → Option (List ℕ))
    (unmarshal : List ℕ → Option TokenScope) where
  -- how a mint by a token with the scope `parent` succeeds
  record HasMinted (parent : CompiledTokenScope) (s : TokenScope) (blob : List ℕ) : Type 0 where
    pub valid : compile_token_scope (some s) ≡ compiled (scope_of (some s))
    pub narrower : contains_scope parent (scope_of (some s)) ≡ true
    pub bytes :
        ((blob ≡ []) × (empty_token_scope (some s) ≡ true))
        ⊎ ((marshal s ≡ some blob) × (empty_token_scope (some s) ≡ false))

  bytes-mint_compiled :
      (parent : CompiledTokenScope) (s : TokenScope) (blob : List ℕ) (text : String)
      → token_scope_blob_for_mint decimal digest marshal unmarshal (some parent) (some s)
        ≡ minted blob text
      → compile_token_scope (some s) ≡ compiled (scope_of (some s))
      → HasMinted parent s blob
  unfolding token_scope_blob_for_mint
  bytes-mint_compiled parent s blob text h valid =
      of_tests (contains_scope parent (scope_of (some s))) (empty_token_scope (some s)) (marshal s)
        refl refl refl
    where
      of_tests :
          (narrow empty : Bool) (m : Option (List ℕ))
          → contains_scope parent (scope_of (some s)) ≡ narrow
          → empty_token_scope (some s) ≡ empty
          → marshal s ≡ m
          → HasMinted parent s blob
      of_tests false empty m n e f = absurd (cc (rw (valid, n) at h))
      of_tests true true m n e f = record {
        valid = valid;
        narrower = n;
        bytes = inl (cc (rw (valid, n, e) at h), e);
      }
      of_tests true false none n e f = absurd (cc (rw (valid, n, e, f) at h))
      of_tests true false (some b) n e f = record {
        valid = valid;
        narrower = n;
        bytes = inr (f ∙ cc (rw (valid, n, e, f) at h), e);
      }

  mint-HasMinted :
      (parent : CompiledTokenScope) (s : TokenScope) (blob : List ℕ) (text : String)
      → token_scope_blob_for_mint decimal digest marshal unmarshal (some parent) (some s)
        ≡ minted blob text
      → HasMinted parent s blob
  unfolding token_scope_blob_for_mint
  mint-HasMinted parent s blob text h =
      elim (compile-scope_of s (compile_token_scope (some s)) refl) [
        | inl valid ↦ bytes-mint_compiled parent s blob text h valid
        | inr (e, bad) ↦ absurd (cc (rw bad at h))
      ]

  -- what a stored blob is read back as
  decode-HasMinted :
      (parent : CompiledTokenScope) (s : TokenScope) (token_id : String) (blob : List ℕ)
      (cache : Cached)
      → HasMinted parent s blob
      → (marshal s ≡ some blob → unmarshal blob ≡ some s)
      → unmarshal [] ≡ some default_scope
      → lookup (cache_key decimal digest marshal unmarshal token_id blob) cache ≡ none
      → (decode_token_scope decimal digest marshal unmarshal token_id blob cache).0
        ≡ some (scope_of (some s))
  unfolding decode_token_scope empty_token_scope
  decode-HasMinted parent s token_id [] cache made codec zero fresh = elim made.bytes [
    | inl (nothing, empty) ↦ ap some (sym (empty-scope_of s empty))
    | inr (wrote, full) ↦ absurd (cc (sym full ∙ ap empty_token_scope (sym (codec wrote) ∙ zero)))
  ]
  decode-HasMinted parent s token_id (b ∷ bytes) cache made codec zero fresh = elim made.bytes [
    | inl (nothing, empty) ↦ absurd (cc nothing)
    | inr (wrote, full) ↦ rw (decode_token_scope, fresh, codec wrote, made.valid) refl
  ]

  -- What a token with a limited scope mints is no broader: if `tokenScopeBlobForMint` accepts a
  -- scope under a parent whose allowed actions are not spelled like patterns, then the stored blob,
  -- with no entry of its token in the cache, is read back as a scope that allows only what the
  -- parent allows. The codec reads this scope back, and an empty blob as the empty message.
  pub mint-decode-contained :
      (parent : CompiledTokenScope) (s : TokenScope) (blob : List ℕ) (text token_id : String)
      (cache : Cached) (action : String) (t : Target)
      → IsLiteral parent
      → token_scope_blob_for_mint decimal digest marshal unmarshal (some parent) (some s)
        ≡ minted blob text
      → (marshal s ≡ some blob → unmarshal blob ≡ some s)
      → unmarshal [] ≡ some default_scope
      → lookup (cache_key decimal digest marshal unmarshal token_id blob) cache ≡ none
      → ((decode_token_scope decimal digest marshal unmarshal token_id blob cache).0
          ≡ some (scope_of (some s)))
        × (allow (scope_of (some s)) action t ≡ true → allow parent action t ≡ true)
  mint-decode-contained parent s blob text token_id cache action t lit made codec zero fresh =
      let m = mint-HasMinted parent s blob text made in
      (
        decode-HasMinted parent s token_id blob cache m codec zero fresh,
        contains_scope_sound parent (scope_of (some s)) action t lit m.narrower,
      )
