-- ===== src/Policy/Roles.antt =====
-- internal/policy/compiler.go: the role graph and `resolveRoleInheritance`.
pub mod Inheritance
pub mod Resolve
use gohome.Prelude.{
  ℕ, zero, suc, Bool, true, false, List, [], ◌∷◌, Option, none, some, lookup, insert, contains,
  keys, length, if◌then◌else◌, string_eq,
}
use gohome.Policy.Schema.{RoleSlug}

pub record RoleNode : Type 0 where
  pub slug : RoleSlug
  pub inherits : List RoleSlug

pub record RoleGraph : Type 0 where
  pub roles : List (RoleSlug × RoleNode)

abbrev pub inherits_of_node : Option RoleNode → List RoleSlug
inherits_of_node none = []
inherits_of_node (some node) = node.inherits

-- `g.Roles[s].Inherits`; a missing role reads as the zero node
abbrev pub inherits_of : RoleGraph → RoleSlug → List RoleSlug
inherits_of g s = inherits_of_node (lookup s g.roles)

-- the loop over the parents, which stops at the first error
abbrev pub visit_each :
    (RoleSlug → List RoleSlug → Option (List RoleSlug))
    → List RoleSlug
    → List RoleSlug
    → Option (List RoleSlug)
visit_each f [] seen = some seen
visit_each f (parent ∷ rest) seen = elim (f parent seen) [
  | none ↦ none
  | some seen' ↦ visit_each f rest seen'
]

-- The closure `visit`, with its variables `seen` and `path` passed on; `none` is `ErrCycle`. Each
-- call that succeeds leaves `path` as it found it, so `path` goes down only. The fuel bounds the
-- depth of the calls.
unfoldable pub visit :
    ℕ → RoleGraph → RoleSlug → List RoleSlug → List RoleSlug → Option (List RoleSlug)
visit zero g s path seen = some seen
visit (suc fuel) g s path seen =
    let rest =
      visit_each (λ parent seen'. visit fuel g parent (s ∷ path) seen') (inherits_of g s)
        (s ∷ seen) in
    if contains path s then none else if contains seen s then some seen else rest

-- Only a key of the map inherits, so a chain of calls is no longer than the map, and one.
abbrev pub role_depth : RoleGraph → ℕ
role_depth g = suc (length (keys g.roles))

unfoldable pub resolve_each :
    RoleGraph
    → List RoleSlug
    → List (RoleSlug × List RoleSlug)
    → Option (List (RoleSlug × List RoleSlug))
unfolding visit
resolve_each g [] out = some out
resolve_each g (slug ∷ rest) out = elim (visit (role_depth g) g slug [] []) [
  | none ↦ none
  | some seen ↦ resolve_each g rest (insert slug seen out)
]

unfoldable pub resolve_role_inheritance : RoleGraph → Option (List (RoleSlug × List RoleSlug))
unfolding resolve_each
resolve_role_inheritance g = resolve_each g (keys g.roles) []
