-- ===== src/Policy/Selector/Reach.antt =====
-- `expand_areas` collects exactly the areas below the declared ones.
use mathlib.Core.Logic.{⊎_elim}
use mathlib.Core.List.Memᴰ
use gohome.Prelude.{
  ℕ, zero, suc, ◌<◌, String, ◌≡◌, refl, ◌⊎◌, inl, inr, ◌↔◌, true, List, [], ◌∷◌, ◌++◌, Memᴰ, arith,
  contains, keys, lookup-none, Bool-cases, if◌then◌else◌, eq_iff, eq_refl, ◌==◌, mem→contains,
  contains→mem, string_eq, subst,
}
use gohome.Graph.{
  In, Reach, here, step, closed-Reach, unseen, unseen-le-length, unseen_mono, unseen-cons,
}
use gohome.Policy.Schema.{AreaSlug}
use gohome.Policy.Selector.{
  AreaTree, children_of, walk_each, walk_descendants, depth_bound, expand_decl, expand_each,
  expand_areas,
}

module _ (tree : AreaTree) where
  abbrev areas : List AreaSlug
  areas = keys tree.children

  -- What a walk from `roots` makes of the set `out`.
  record Walked (roots out out' : List AreaSlug) : Type 0 where
    grows : (x : AreaSlug) → In out x → In out' x
    rooted : (a : AreaSlug) → Memᴰ a roots → In out' a
    sound :
        (x : AreaSlug)
        → In out' x
        → In out x ⊎ ((a : AreaSlug) × Memᴰ a roots × Reach (children_of tree) a x)
    closed : (x c : AreaSlug) → In out' x → Memᴰ c (children_of tree x) → In out x ⊎ In out' c

  Walked-nil : (out : List AreaSlug) → Walked [] out out
  Walked-nil out = record {
    grows = λ x h. h;
    rooted = λ a m. absurd (Memᴰ.not-nil m);
    sound = λ x h. inl h;
    closed = λ x c h m. inl h;
  }

  Walked-append :
      {roots more out mid out' : List AreaSlug}
      → Walked roots out mid
      → Walked more mid out'
      → Walked (roots ++ more) out out'
  Walked-append {roots} {more} v w = record {
    grows = λ x h. w.grows x (v.grows x h);
    rooted = λ a m. ⊎_elim (λ n. w.grows a (v.rooted a n)) (w.rooted a) (Memᴰ.append_cases roots m);
    sound = λ x h. elim (w.sound x h) [
      | inr (a, m, r) ↦ inr (a, Memᴰ.append_right roots m, r)
      | inl k ↦ elim (v.sound x k) [
        | inl old ↦ inl old
        | inr (a, m, r) ↦ inr (a, Memᴰ.append_left more m, r)
      ]
    ];
    closed = λ x c h m. elim (w.closed x c h m) [
      | inr new ↦ inr new
      | inl k ↦ elim (v.closed x c k m) [ inl old ↦ inl old | inr new ↦ inr (w.grows c new) ]
    ];
  }

  -- one level of the walk, from what the loop over the children does
  Walked-cons :
      (root : AreaSlug) (out out' : List AreaSlug)
      → Walked (children_of tree root) (root ∷ out) out'
      → Walked (root ∷ []) out out'
  Walked-cons root out out' w = record {
    grows = λ x h. w.grows x (ground arith);
    rooted = λ a m. rw (Memᴰ.eq_of_singleton m) (w.grows root (ground (arith, eq_refl root)));
    sound = λ x h. elim (w.sound x h) [
      | inr (a, m, r) ↦ inr (root, Memᴰ.head refl, step m r)
      | inl k ↦ elim (Bool-cases (root == x)) [
        | inl e ↦
            inr (
              root,
              Memᴰ.head refl,
              subst (Reach (children_of tree) root) ((eq_iff root x).0 e) here,
            )
        | inr ne ↦ inl (rw ne at k)
      ]
    ];
    closed = λ x c h m. elim (w.closed x c h m) [
      | inr new ↦ inr new
      | inl k ↦ elim (Bool-cases (root == x)) [
        | inl e ↦ inr (w.rooted c (rw (← (eq_iff root x).0 e) at m))
        | inr ne ↦ inl (rw ne at k)
      ]
    ];
  }

  walk_each-Walked :
      (walk : AreaSlug → List AreaSlug → List AreaSlug) (n : ℕ)
      → ((a : AreaSlug) (s : List AreaSlug) → unseen areas s < n → Walked (a ∷ []) s (walk a s))
      → (roots out : List AreaSlug) → unseen areas out < n
      → Walked roots out (walk_each walk roots out)
  walk_each-Walked walk n w [] out h = Walked-nil out
  walk_each-Walked walk n w (a ∷ roots) out h =
      let first = w a out h in
      let room = unseen_mono areas out (walk a out) first.grows in
      Walked-append first (walk_each-Walked walk n w roots (walk a out) (omega arith))

  walk-Walked :
      (n : ℕ) (root : AreaSlug) (out : List AreaSlug)
      → unseen areas out < n
      → Walked (root ∷ []) out (walk_descendants n tree root out)
  unfolding walk_descendants
  walk-Walked zero root out h = absurd (omega arith)
  walk-Walked (suc n) root out h = elim (Bool-cases (contains out root)) [
    | inl old ↦ rw old (record {
      grows = λ x k. k;
      rooted = λ a m. rw (Memᴰ.eq_of_singleton m) old;
      sound = λ x k. inl k;
      closed = λ x c k m. inl k;
    })
    | inr new ↦ rw new (
        Walked-cons root out _ (elim (Bool-cases (contains areas root)) [
          | inl k ↦
              walk_each-Walked (walk_descendants n tree) n (walk-Walked n) (children_of tree root)
                (root ∷ out) (omega (arith, unseen-cons areas out root k new))
          | inr leaf ↦ rw (lookup-none root tree.children leaf) (Walked-nil (root ∷ out))
        ]))
  ]

  -- the areas that the body of the loop over the declarations walks from
  abbrev decl_roots : String → List AreaSlug
  decl_roots d = if d == "*" then areas else if contains areas d then d ∷ [] else []

  abbrev roots_of : List String → List AreaSlug
  roots_of [] = []
  roots_of (d ∷ decls) = decl_roots d ++ roots_of decls

  enough_fuel : (out : List AreaSlug) → unseen areas out < depth_bound tree
  enough_fuel out = omega (arith, unseen-le-length areas out)

  expand_decl-Walked :
      (d : String) (out : List AreaSlug) → Walked (decl_roots d) out (expand_decl tree d out)
  unfolding expand_decl
  expand_decl-Walked d out = elim (Bool-cases (d == "*")) [
    | inl star ↦ rw star (
        walk_each-Walked (walk_descendants (depth_bound tree) tree) (depth_bound tree)
          (walk-Walked (depth_bound tree)) areas out (enough_fuel out))
    | inr plain ↦ rw plain (elim (Bool-cases (contains areas d)) [
      | inl k ↦ rw k (walk-Walked (depth_bound tree) d out (enough_fuel out))
      | inr unknown ↦ rw unknown (Walked-nil out)
    ])
  ]

  expand_each-Walked :
      (decls : List String) (out : List AreaSlug)
      → Walked (roots_of decls) out (expand_each tree decls out)
  unfolding expand_each
  expand_each-Walked [] out = Walked-nil out
  expand_each-Walked (d ∷ decls) out =
      Walked-append (expand_decl-Walked d out) (expand_each-Walked decls (expand_decl tree d out))

  -- `a` is an area of the tree that the declarations name, by its slug or by "*".
  abbrev pub IsDeclared : List String → AreaSlug → Type 0
  IsDeclared decls a = In areas a × (In decls a ⊎ In decls "*")

  mem-roots_of : (decls : List String) (a : AreaSlug) → Memᴰ a (roots_of decls) → IsDeclared decls a
  mem-roots_of [] a m = absurd (Memᴰ.not-nil m)
  mem-roots_of (d ∷ decls) a m = elim (Memᴰ.append_cases (decl_roots d) m) [
    | inr later ↦ let (k, why) = mem-roots_of decls a later in (k, ground arith)
    | inl now ↦ elim (Bool-cases (d == "*")) [
      | inl star ↦ (mem→contains areas a (rw star at now), ground arith)
      | inr plain ↦ elim (Bool-cases (contains areas d)) [
        | inl k ↦
            let e = Memᴰ.eq_of_singleton (rw (plain, k) at now) in
            (rw e k, inl (rw (e, eq_refl d) refl))
        | inr unknown ↦ absurd (Memᴰ.not-nil (rw (plain, unknown) at now))
      ]
    ]
  ]

  roots_of-mem : (decls : List String) (a : AreaSlug) → IsDeclared decls a → Memᴰ a (roots_of decls)
  roots_of-mem [] a (k, why) = absurd (ground arith)
  roots_of-mem (d ∷ decls) a (k, why) = elim (Bool-cases (d == "*")) [
    | inl star ↦ rw star (Memᴰ.append_left (roots_of decls) (contains→mem areas a k))
    | inr plain ↦ elim (Bool-cases (d == a)) [
      | inl e ↦ rw (plain, (eq_iff d a).0 e, k) (Memᴰ.head refl)
      | inr other ↦ Memᴰ.append_right (decl_roots d) (roots_of-mem decls a (k, ground arith))
    ]
  ]

-- `expand_areas` returns exactly the areas that can be reached, along edges from parent to child,
-- from an area of the tree that the declarations name, by its slug or by "*". Declarations that
-- the tree does not know add nothing, and cycles in the tree do no harm.
pub expand_areas-exact :
    (tree : AreaTree) (decls : List String) (x : AreaSlug)
    → (contains (expand_areas tree decls) x ≡ true)
      ↔ ((a : AreaSlug) × IsDeclared tree decls a × Reach (children_of tree) a x)
unfolding expand_areas
expand_areas-exact tree decls x =
    let w = expand_each-Walked tree decls [] in
    (
      λ h. elim (w.sound x h) [
        | inl none_yet ↦ absurd (ground arith)
        | inr (a, m, r) ↦ (a, mem-roots_of tree decls a m, r)
      ],
      λ (a, declared, r).
          closed-Reach (expand_each tree decls [])
            (λ y c h m. elim (w.closed y c h m) [
              | inl none_yet ↦ absurd (ground arith)
              | inr new ↦ new
            ])
            r (w.rooted a (roots_of-mem tree decls a declared)),
    )
