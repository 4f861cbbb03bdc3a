-- ===== src/Policy/Roles/Resolve.antt =====
-- `resolve_role_inheritance` fails exactly on cyclic graphs, and else returns the closure.
use mathlib.Core.List.Memᴰ
use gohome.Prelude.{
  ◌≡◌, refl, ◌⊎◌, inl, inr, ◌↔◌, false, List, [], ◌∷◌, Memᴰ, arith, Option, none, some, contains,
  keys, lookup, insert, lookup-none, lookup-insert, subst, Bool-cases, eq_iff, ◌==◌, string_eq,
}
use gohome.Graph.{In, Reach, closed-Reach, Cycle, unseen-le-length}
use gohome.Policy.Schema.{RoleSlug}
use gohome.Policy.Roles.{
  RoleGraph, inherits_of, visit, role_depth, resolve_each, resolve_role_inheritance,
}
use gohome.Policy.Roles.Inheritance.{IsReady, IsDone, slugs, Visited, visit-Visited}

-- `set` holds exactly the roles that `s` inherits, over any number of steps, itself included.
abbrev pub IsClosure : RoleGraph → RoleSlug → List RoleSlug → Type 0
IsClosure g s set = (x : RoleSlug) → (In set x ↔ Reach (inherits_of g) s x)

module _ (g : RoleGraph) where
  IsReady-nil : IsReady g [] []
  IsReady-nil = record {
    on_path = λ x h. cc;
    finished = λ x c h. absurd (cc);
    acyclic = λ x h. absurd (cc);
  }

  visit-top : (s : RoleSlug) → Visited g [] (s ∷ []) [] (visit (role_depth g) g s [] [])
  visit-top s =
      visit-Visited g (role_depth g) s [] [] (omega (arith, unseen-le-length (slugs g) []))
        IsReady-nil (λ p h. absurd (cc))

  done-IsClosure :
      (s : RoleSlug) (seen : List RoleSlug) → IsDone g [] (s ∷ []) [] seen → IsClosure g s seen
  done-IsClosure s seen d x = (
    λ h. elim (d.sound x h) [
      | inl none_yet ↦ absurd (cc)
      | inr (a, m, r) ↦ rw (Memᴰ.eq_of_singleton m) at r
    ],
    λ r.
        closed-Reach seen (λ y c h m. (d.ready.finished y c h refl m).0) r
          (d.rooted s (Memᴰ.head refl)).0,
  )

  record IsResolved (done : List RoleSlug) (out : List (RoleSlug × List RoleSlug)) : Type 0 where
    closure :
        (s : RoleSlug)
        → In done s
        → (set : List RoleSlug) × (lookup s out ≡ some set) × IsClosure g s set
    only : (s : RoleSlug) → contains done s ≡ false → lookup s out ≡ none
    acyclic : (s : RoleSlug) → In done s → ¬ Cycle (inherits_of g) s

  abbrev Resolution :
      List RoleSlug
      → List RoleSlug
      → List (RoleSlug × List RoleSlug)
      → Option (List (RoleSlug × List RoleSlug))
      → Type 0
  Resolution todo done out none = (x : RoleSlug) × Cycle (inherits_of g) x
  Resolution todo done out (some out') =
      (all_done : List RoleSlug) × ((s : RoleSlug) → In all_done s ↔ (In done s ⊎ In todo s))
      × IsResolved all_done out'

  IsResolved-insert :
      (done : List RoleSlug) (out : List (RoleSlug × List RoleSlug)) (s : RoleSlug)
      (seen : List RoleSlug)
      → IsDone g [] (s ∷ []) [] seen
      → IsResolved done out
      → IsResolved (s ∷ done) (insert s seen out)
  IsResolved-insert done out s seen d r = record {
    closure = λ x h. elim (Bool-cases (s == x)) [
      | inl e ↦ (
        seen,
        rw (lookup-insert s x seen out, e) refl,
        rw (← (eq_iff s x).0 e) (done-IsClosure s seen d),
      )
      | inr ne ↦
          let (set, found, c) = r.closure x (rw ne at h) in
          (set, rw (lookup-insert s x seen out, ne) found, c)
    ];
    only = λ x h. rw lookup-insert (ground (arith, r.only x));
    acyclic = λ x h. elim (Bool-cases (s == x)) [
      | inl e ↦ rw (← (eq_iff s x).0 e) (d.ready.acyclic s (d.rooted s (Memᴰ.head refl)).0 refl)
      | inr ne ↦ r.acyclic x (rw ne at h)
    ];
  }

  resolve_each-Resolution :
      (todo done : List RoleSlug) (out : List (RoleSlug × List RoleSlug))
      → IsResolved done out
      → Resolution todo done out (resolve_each g todo out)
  unfolding resolve_each
  resolve_each-Resolution [] done out r = (done, λ s. (inl, λ h. ground arith), r)
  resolve_each-Resolution (s ∷ todo) done out r =
      next (visit (role_depth g) g s [] []) (visit-top s) (λ seen d.
        resolve_each-Resolution todo (s ∷ done) (insert s seen out)
          (IsResolved-insert done out s seen d r))
    where
      regroup :
          (seen : List RoleSlug) (o : Option (List (RoleSlug × List RoleSlug)))
          → Resolution todo (s ∷ done) (insert s seen out) o
          → Resolution (s ∷ todo) done out o
      regroup seen none cycle = cycle
      regroup seen (some out') (all_done, members, r') =
          (all_done, λ x. (λ h. ground (arith, members x), λ h. ground (arith, members x)), r')

      next :
          (o : Option (List RoleSlug))
          → Visited g [] (s ∷ []) [] o
          → ((seen : List RoleSlug)
              → IsDone g [] (s ∷ []) [] seen
              → Resolution todo
                  (s ∷ done)
                  (insert s seen out)
                  (resolve_each g todo (insert s seen out)))
          → Resolution
              (s ∷ todo)
              done
              out
              (elim o [ none ↦ none | some seen ↦ resolve_each g todo (insert s seen out) ])
      next none cycle go = cycle
      next (some seen) d go = regroup seen (resolve_each g todo (insert s seen out)) (go seen d)

  IsResolved-nil : IsResolved [] []
  IsResolved-nil = record {
    closure = λ s h. absurd (cc);
    only = λ s h. refl;
    acyclic = λ s h. absurd (cc);
  }

  resolve-Resolution : Resolution (slugs g) [] [] (resolve_role_inheritance g)
  unfolding resolve_role_inheritance
  resolve-Resolution = resolve_each-Resolution (slugs g) [] [] IsResolved-nil

  -- a role on a cycle has parents, so the map holds it
  Cycle-In : (x : RoleSlug) → Cycle (inherits_of g) x → In (slugs g) x
  Cycle-In x (c, m, walk) = elim (Bool-cases (contains (slugs g) x)) [
    | inl k ↦ k
    | inr leaf ↦ absurd (Memᴰ.not-nil (rw (ap_parents x leaf) at m))
  ]
    where
      ap_parents : (y : RoleSlug) → contains (slugs g) y ≡ false → inherits_of g y ≡ []
      ap_parents y leaf = rw (lookup-none y g.roles leaf)

  ok_acyclic :
      (o : Option (List (RoleSlug × List RoleSlug)))
      → Resolution (slugs g) [] [] o
      → (x : RoleSlug) → Cycle (inherits_of g) x
      → o ≡ none
  ok_acyclic none cycle x c = refl
  ok_acyclic (some out) (all_done, members, r) x c =
      absurd (r.acyclic x ((members x).1 (inr (Cycle-In x c))) c)

  failed-Cycle :
      (o : Option (List (RoleSlug × List RoleSlug)))
      → Resolution (slugs g) [] [] o
      → o ≡ none
      → (x : RoleSlug) × Cycle (inherits_of g) x
  failed-Cycle none cycle h = cycle
  failed-Cycle (some out) r h = cc

-- Role resolution fails if and only if some role inherits, over one step or more, from itself.
pub resolve-none_iff :
    (g : RoleGraph)
    → (resolve_role_inheritance g ≡ none) ↔ ((x : RoleSlug) × Cycle (inherits_of g) x)
resolve-none_iff g = (
  failed-Cycle g (resolve_role_inheritance g) (resolve-Resolution g),
  λ (x, c). ok_acyclic g (resolve_role_inheritance g) (resolve-Resolution g) x c,
)

IsClosure-of :
    (g : RoleGraph) (o : Option (List (RoleSlug × List RoleSlug)))
    (out : List (RoleSlug × List RoleSlug)) (s : RoleSlug)
    → Resolution g (slugs g) [] [] o
    → o ≡ some out
    → In (slugs g) s
    → (set : List RoleSlug) × (lookup s out ≡ some set) × IsClosure g s set
IsClosure-of g none out s r h k = cc
IsClosure-of g (some out') out s (all_done, members, r) h k =
    let same : out' ≡ out = cc in
    subst (λ m. (set : List RoleSlug) × (lookup s m ≡ some set) × IsClosure g s set) same
      (r.closure s ((members s).1 (inr k)))

-- Where role resolution succeeds, each role of the graph gets exactly the set of the roles that it
-- inherits over any number of steps, itself included.
pub resolve-IsClosure :
    (g : RoleGraph) (out : List (RoleSlug × List RoleSlug)) (s : RoleSlug)
    → resolve_role_inheritance g ≡ some out
    → In (keys g.roles) s
    → (set : List RoleSlug) × (lookup s out ≡ some set) × IsClosure g s set
resolve-IsClosure g out s h k =
    IsClosure-of g (resolve_role_inheritance g) out s (resolve-Resolution g) h k
