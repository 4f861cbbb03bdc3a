-- ===== src/Policy/Rule.antt =====
-- internal/policy/compiler.go (the raw types and one rule) and `HashSelector` of schema.go: from raw policies to the compiled
-- form. `*Compiled` is mutated while it is built: the functions take it and return the new one.
-- SHA-256 with its hexadecimal print is the parameter `digest`; it is given characters for bytes.
use Prim.Native.Char.{code}
use Prim.Native.String.{compare}
use Prim.Native.Nat.{Ordering}
use gohome.Prelude.{
  ℕ, zero, suc, ◌≡◌, refl, ◌+◌, ◌%◌, ◌^◌, ◌/◌, String, Bool, true, false, not, ◌&&◌, List, [], ◌∷◌,
  ◌++◌, none, some, lookup, insert, contains, add, or_zero, is_empty, length, if◌then◌else◌,
  string_eq, pair_eq,
}
use gohome.Policy.Schema.{Verb, RoleSlug, AreaSlug, CompiledSelector, CompiledRule, Compiled}
use gohome.Policy.Selector.{AreaTree, expand_areas}

pub record RawSelector : Type 0 where
  pub areas : List String
  pub classes : List String
  pub entity_ids : List String
  pub match_any : Bool

pub record RawRule : Type 0 where
  pub verbs : List Verb
  pub targets : RawSelector
  pub services : List String

pub record RawPolicy : Type 0 where
  pub name : String
  pub subjects : List RoleSlug
  pub allow : List RawRule
  pub deny : List RawRule

pub record CatalogAction : Type 0 where
  pub service : String
  pub method : String
  pub verb : Verb
  pub is_entity : Bool

pub record ActionCatalog : Type 0 where
  pub actions : List CatalogAction

pub data CompileError : Type 0 where
  cycle : CompileError
  unknown_service : String → String → CompileError
  deny_non_entity : String → String → String → CompileError

pub data Attempt {ℓ} (A : Type ℓ) : Type ℓ where
  got : A → Attempt A
  failed : CompileError → Attempt A

-- `if err != nil { return nil, err }` between two steps
infixl 5 ◌>>=◌
abbrev pub ◌>>=◌ {ℓ κ} : {B : Type ℓ} {C : Type κ} → Attempt B → (B → Attempt C) → Attempt C
failed why >>= next = failed why
got b >>= next = next b

-- what a sequence of two steps got, it got through the first
pub got-bind {ℓ κ} :
    {B : Type ℓ} {C : Type κ} (first : Attempt B) (next : B → Attempt C) {c : C}
    → (first >>= next) ≡ got c
    → (b : B) × (first ≡ got b) × (next b ≡ got c)
got-bind (failed why) next e = cc
got-bind (got b) next e = (b, refl, e)

-- `sort.Strings`, as an insertion sort
abbrev pub sort_insert : String → List String → List String
sort_insert s [] = s ∷ []
sort_insert s (t ∷ rest) =
    let later = sort_insert s rest in
    elim (compare s t) [ Ordering.gt ↦ t ∷ later | _ ↦ s ∷ t ∷ rest ]

abbrev pub sort_strings : List String → List String
sort_strings [] = []
sort_strings (s ∷ rest) = sort_insert s (sort_strings rest)

abbrev pub bytes_of : String → List ℕ
bytes_of String.[] = []
bytes_of (String.◌∷◌ c s) = code c ∷ bytes_of s

abbrev pub write_items : List String → List ℕ
write_items [] = 1 ∷ []
write_items (s ∷ rest) = bytes_of s ++ (0 ∷ write_items rest)

-- the closure `write`
abbrev pub write_block : ℕ → List String → List ℕ
write_block label items = label ∷ 0 ∷ write_items (sort_strings items)

-- `binary.BigEndian.PutUint64`
abbrev pub big_endian : ℕ → ℕ → List ℕ
big_endian zero n = []
big_endian (suc k) n = (n / 256 ^ k % 256) ∷ big_endian k n

unfoldable pub hash_selector : (List ℕ → String) → List String → List String → List String → String
hash_selector digest areas classes entity_ids = digest (
    write_block b'a' areas
    ++ (write_block b'c' classes
        ++ (write_block b'e' entity_ids
            ++ big_endian 8 (length areas + length classes + length entity_ids))))

-- `set := map[K]struct{}{}; for … { set[k] = struct{}{} }`
abbrev pub to_set : List String → List String
to_set [] = []
to_set (x ∷ xs) = add x (to_set xs)

unfoldable pub selector_is_empty : CompiledSelector → Bool
selector_is_empty cs =
    not cs.match_any && is_empty cs.area_set && is_empty cs.class_set && is_empty cs.entity_set

abbrev pub any_selector : CompiledSelector
any_selector = record {
  hash = "";
  area_set = [];
  class_set = [];
  entity_set = [];
  match_any = true;
}

-- the expansion that `sink` holds under the hash, or a new one, which it keeps
unfoldable pub cached_expansion :
    String → AreaTree → List String → Compiled → List AreaSlug × Compiled
cached_expansion hash areas decls sink = elim (lookup hash sink.area_expansion) [
  | some expansion ↦ (expansion, sink)
  | none ↦ (
    expand_areas areas decls,
    record sink { area_expansion = insert hash (expand_areas areas decls) sink.area_expansion },
  )
]

-- Its error result is always nil in the source, so it is left out.
unfoldable pub compile_selector :
    (List ℕ → String) → RawSelector → AreaTree → Compiled → CompiledSelector × Compiled
unfolding cached_expansion hash_selector
compile_selector digest rs areas sink =
    let hash = hash_selector digest rs.areas rs.classes rs.entity_ids in
    let (expansion, sink') = cached_expansion hash areas rs.areas sink in
    if rs.match_any then (any_selector, sink) else (
      record {
        hash = hash;
        area_set = expansion;
        class_set = to_set rs.classes;
        entity_set = to_set rs.entity_ids;
        match_any = false;
      },
      sink',
    )

-- the loop that builds `cr.Services`
unfoldable pub compile_services :
    String → List String → List String → List String → Attempt (List String)
compile_services policy_name known [] set = got set
compile_services policy_name known (s ∷ rest) set =
    if not (contains known s)
    then failed (unknown_service policy_name s)
    else compile_services policy_name known rest (add s set)

-- the loops that look for an action of a deny rule that is not on entities
unfoldable pub check_actions : String → List CatalogAction → Attempt (Unit {0})
check_actions policy_name [] = got tt
check_actions policy_name (a ∷ rest) =
    if not a.is_entity
    then failed (deny_non_entity policy_name a.service a.method)
    else check_actions policy_name rest

unfoldable pub check_services :
    String → List (String × List CatalogAction) → List String → Attempt (Unit {0})
unfolding check_actions
check_services policy_name catalog [] = got tt
check_services policy_name catalog (svc ∷ rest) = do
  _ ← check_actions policy_name (or_zero [] (lookup svc catalog))
  check_services policy_name catalog rest

unfoldable pub compile_rule :
    (List ℕ → String)
    → String
    → RawRule
    → AreaTree
    → List (String × List CatalogAction)
    → List String
    → Compiled
    → Bool
    → Attempt (CompiledRule × Compiled)
unfolding compile_services check_services compile_selector selector_is_empty
compile_rule digest policy_name rr areas catalog known_services sink is_deny = do
  services ← compile_services policy_name known_services rr.services []
  let compiled = compile_selector digest rr.targets areas sink
  let cr : CompiledRule = record {
    policy_name = policy_name;
    verbs = to_set rr.verbs;
    services = services;
    targets = compiled.0;
  }
  _ ←
      if is_deny && not (is_empty rr.services) && not (selector_is_empty compiled.0)
      then check_services policy_name catalog rr.services
      else got tt
  got (cr, compiled.1)

unfoldable pub index_catalog :
    List CatalogAction → List (String × List CatalogAction) → List (String × List CatalogAction)
index_catalog [] out = out
index_catalog (a ∷ rest) out =
    index_catalog rest (insert a.service (or_zero [] (lookup a.service out) ++ (a ∷ [])) out)

abbrev pub known_services_of : List CatalogAction → List String
known_services_of [] = []
known_services_of (a ∷ rest) = add a.service (known_services_of rest)
