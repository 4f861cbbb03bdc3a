-- ===== src/Policy/Roles/Inheritance.antt =====
-- The walk of `visit`: what it adds to `seen`, and that it fails only on a cycle.
use mathlib.Core.List.Memᴰ
use gohome.Prelude.{
  ℕ, zero, suc, ◌<◌, ◌≡◌, refl, subst, ◌⊎◌, inl, inr, false, List, [], ◌∷◌, Memᴰ, arith, Option,
  none, some, contains, keys, lookup-none, Bool-cases, eq_iff, eq_refl, ◌==◌, string_eq,
}
use gohome.Graph.{
  In, Reach, here, step, Reach-trans, along_reach, Leads, Cycle, unseen, unseen_mono, unseen-cons,
}
use gohome.Policy.Schema.{RoleSlug}
use gohome.Policy.Roles.{RoleGraph, inherits_of, visit_each, visit}

module _ (g : RoleGraph) where
  abbrev pub slugs : List RoleSlug
  slugs = keys g.roles

  abbrev pub parents : RoleSlug → List RoleSlug
  parents = inherits_of g

  -- what holds of `path` and `seen` between the calls: a role that is seen and not on the path is
  -- finished, its above are finished too, and no cycle goes through it
  pub record IsReady (path seen : List RoleSlug) : Type 0 where
    pub on_path : (x : RoleSlug) → In path x → In seen x
    pub finished :
        (x c : RoleSlug)
        → In seen x
        → contains path x ≡ false
        → Memᴰ c (parents x)
        → In seen c × (contains path c ≡ false)
    pub acyclic : (x : RoleSlug) → In seen x → contains path x ≡ false → ¬ Cycle parents x

  pub record IsDone (path roots seen seen' : List RoleSlug) : Type 0 where
    pub grows : (x : RoleSlug) → In seen x → In seen' x
    pub rooted : (a : RoleSlug) → Memᴰ a roots → In seen' a × (contains path a ≡ false)
    pub sound :
        (x : RoleSlug)
        → In seen' x
        → In seen x ⊎ ((a : RoleSlug) × Memᴰ a roots × Reach parents a x)
    pub ready : IsReady path seen'

  abbrev pub Visited :
      List RoleSlug → List RoleSlug → List RoleSlug → Option (List RoleSlug) → Type 0
  Visited path roots seen none = (x : RoleSlug) × Cycle parents x
  Visited path roots seen (some seen') = IsDone path roots seen seen'

  abbrev pub OnWay : List RoleSlug → RoleSlug → Type 0
  OnWay path s = (p : RoleSlug) → In path p → Leads parents p s

  IsDone-nil : (path seen : List RoleSlug) → IsReady path seen → IsDone path [] seen seen
  IsDone-nil path seen r = record {
    grows = λ x h. h;
    rooted = λ a m. absurd (Memᴰ.not-nil m);
    sound = λ x h. inl h;
    ready = r;
  }

  IsDone-cons :
      (path : List RoleSlug) (a : RoleSlug) (rest seen mid seen' : List RoleSlug)
      → IsDone path (a ∷ []) seen mid
      → IsDone path rest mid seen'
      → IsDone path (a ∷ rest) seen seen'
  IsDone-cons path a rest seen mid seen' v w = record {
    grows = λ x h. w.grows x (v.grows x h);
    rooted = λ b m. elim (Memᴰ.cases_cons m) [
      | inl e ↦ let (k, off) = v.rooted b (Memᴰ.head e) in (w.grows b k, off)
      | inr later ↦ w.rooted b later
    ];
    sound = λ x h. elim (w.sound x h) [
      | inr (b, m, r) ↦ inr (b, Memᴰ.tail m, r)
      | inl k ↦ elim (v.sound x k) [
        | inl old ↦ inl old
        | inr (b, m, r) ↦ inr (b, Memᴰ.head (Memᴰ.eq_of_singleton m), r)
      ]
    ];
    ready = w.ready;
  }

  visit_each-Visited :
      (f : RoleSlug → List RoleSlug → Option (List RoleSlug)) (n : ℕ) (path : List RoleSlug)
      → ((a : RoleSlug) (s : List RoleSlug)
          → unseen slugs s < n
          → IsReady path s
          → OnWay path a
          → Visited path (a ∷ []) s (f a s))
      → (roots seen : List RoleSlug) → unseen slugs seen < n
      → IsReady path seen
      → ((a : RoleSlug) → Memᴰ a roots → OnWay path a)
      → Visited path roots seen (visit_each f roots seen)
  visit_each-Visited f n path one [] seen room r way = IsDone-nil path seen r
  visit_each-Visited f n path one (a ∷ rest) seen room r way =
      next (f a seen) (one a seen room r (way a (Memᴰ.head refl))) (λ mid grows r'.
        visit_each-Visited f n path one rest mid (omega (arith, unseen_mono slugs seen mid grows))
          r' (λ b m. way b (Memᴰ.tail m)))
    where
      next :
          (o : Option (List RoleSlug))
          → Visited path (a ∷ []) seen o
          → ((mid : List RoleSlug)
              → ((x : RoleSlug) → In seen x → In mid x)
              → IsReady path mid
              → Visited path rest mid (visit_each f rest mid))
          → Visited path (a ∷ rest) seen (elim o [ none ↦ none | some mid ↦ visit_each f rest mid ])
      next none cycle go = cycle
      next (some mid) v go = join (visit_each f rest mid) v (go mid v.grows v.ready)
        where
          join :
              (o : Option (List RoleSlug))
              → IsDone path (a ∷ []) seen mid
              → Visited path rest mid o
              → Visited path (a ∷ rest) seen o
          join none v cycle = cycle
          join (some seen') v w = IsDone-cons path a rest seen mid seen' v w

  -- `s` goes on the path and into the set
  IsReady-enter :
      (path seen : List RoleSlug) (s : RoleSlug)
      → contains seen s ≡ false
      → IsReady path seen
      → IsReady (s ∷ path) (s ∷ seen)
  IsReady-enter path seen s new r = record {
    on_path = λ x h. ground (arith, r.on_path x, eq_iff s x);
    finished = λ x c h off m. elim (Bool-cases (s == x)) [
      | inl e ↦ absurd (ground arith)
      | inr ne ↦
          let (k, free) = r.finished x c (rw ne at h) (rw ne at off) m in
          elim (Bool-cases (s == c)) [
            | inl e ↦ absurd (ground (arith, eq_iff s c))
            | inr other ↦ (ground arith, ground arith)
          ]
    ];
    acyclic = λ x h off. elim (Bool-cases (s == x)) [
      | inl e ↦ absurd (ground arith)
      | inr ne ↦ r.acyclic x (rw ne at h) (rw ne at off)
    ];
  }

  -- while `s` is on the path, what is finished does not lead back to it
  no_way_back :
      (path seen : List RoleSlug) (s : RoleSlug)
      → IsReady (s ∷ path) seen
      → ((c : RoleSlug) → Memᴰ c (parents s) → In seen c × (contains (s ∷ path) c ≡ false))
      → ¬ Cycle parents s
  no_way_back path seen s r above (c, m, walk) =
      let (k, off) =
        along_reach (λ x. In seen x × (contains (s ∷ path) x ≡ false))
          (λ x d h n. r.finished x d h.0 h.1 n) walk (above c m) in
      absurd (ground (arith, eq_refl s))

  -- `s` leaves the path, its above done
  IsDone-leave :
      (path seen seen' : List RoleSlug) (s : RoleSlug)
      → contains path s ≡ false
      → IsDone (s ∷ path) (parents s) (s ∷ seen) seen'
      → IsDone path (s ∷ []) seen seen'
  IsDone-leave path seen seen' s off d = record {
    grows = λ x h. d.grows x (ground arith);
    rooted = λ a m. rw (Memᴰ.eq_of_singleton m) (d.grows s (ground (arith, eq_refl s)), off);
    sound = λ x h. elim (d.sound x h) [
      | inr (a, m, r) ↦ inr (s, Memᴰ.head refl, step m r)
      | inl k ↦ elim (Bool-cases (s == x)) [
        | inl e ↦ inr (s, Memᴰ.head refl, subst (Reach parents s) ((eq_iff s x).0 e) here)
        | inr ne ↦ inl (rw ne at k)
      ]
    ];
    ready = record {
      on_path = λ x h. d.ready.on_path x (ground arith);
      finished = λ x c h free m. elim (Bool-cases (s == x)) [
        | inl e ↦ let (k, o) = d.rooted c (rw (← (eq_iff s x).0 e) at m) in (k, ground arith)
        | inr ne ↦ let (k, o) = d.ready.finished x c h (rw ne free) m in (k, ground arith)
      ];
      acyclic = λ x h free. elim (Bool-cases (s == x)) [
        | inl e ↦
            subst (λ y. ¬ Cycle parents y) ((eq_iff s x).0 e)
              (no_way_back path seen' s d.ready d.rooted)
        | inr ne ↦ d.ready.acyclic x h (rw ne free)
      ];
    };
  }

  OnWay-parent :
      (path : List RoleSlug) (s a : RoleSlug)
      → Memᴰ a (parents s)
      → OnWay path s
      → OnWay (s ∷ path) a
  OnWay-parent path s a m way p h = elim (Bool-cases (s == p)) [
    | inl e ↦ subst (λ q. Leads parents q a) ((eq_iff s p).0 e) (a, m, here)
    | inr ne ↦ let (c, n, r) = way p (rw ne at h) in (c, n, Reach-trans r (step m here))
  ]

  Visited-leave :
      (path seen : List RoleSlug) (s : RoleSlug) (o : Option (List RoleSlug))
      → contains path s ≡ false
      → Visited (s ∷ path) (parents s) (s ∷ seen) o
      → Visited path (s ∷ []) seen o
  Visited-leave path seen s none off cycle = cycle
  Visited-leave path seen s (some seen') off d = IsDone-leave path seen seen' s off d

  pub visit-Visited :
      (n : ℕ) (s : RoleSlug) (path seen : List RoleSlug)
      → unseen slugs seen < n
      → IsReady path seen
      → OnWay path s
      → Visited path (s ∷ []) seen (visit n g s path seen)
  unfolding visit
  visit-Visited zero s path seen room r way = absurd (omega arith)
  visit-Visited (suc n) s path seen room r way = elim (Bool-cases (contains path s)) [
    | inl on ↦ rw on (s, way s on)
    | inr off ↦ rw off (elim (Bool-cases (contains seen s)) [
      | inl old ↦ rw old (record {
        grows = λ x h. h;
        rooted = λ a m. rw (Memᴰ.eq_of_singleton m) (old, off);
        sound = λ x h. inl h;
        ready = r;
      })
      | inr new ↦ rw new (
          Visited-leave path seen s _ off (elim (Bool-cases (contains slugs s)) [
            | inl k ↦
                visit_each-Visited (λ parent seen'. visit n g parent (s ∷ path) seen') n (s ∷ path)
                  (λ a t. visit-Visited n a (s ∷ path) t) (inherits_of g s) (s ∷ seen)
                  (omega (arith, unseen-cons slugs seen s k new)) (IsReady-enter path seen s new r)
                  (λ a m. OnWay-parent path s a m way)
            | inr leaf ↦
                rw (lookup-none s g.roles leaf)
                  (IsDone-nil (s ∷ path) (s ∷ seen) (IsReady-enter path seen s new r))
          ]))
    ])
  ]
