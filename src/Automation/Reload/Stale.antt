-- ===== src/Automation/Reload/Stale.antt =====
-- A reload that leaves an automation unchanged, and one after it.
use gohome.Prelude.{
  ℕ, String, ◌≡◌, refl, sym, ap, ◌∙◌, Bool, true, false, not, List, [], ◌∷◌, ◌++◌, some, keep_if,
  eqb, eqb_iff, Memᴰ, string_eq, eq_iff, eq_refl, ◌==◌, if◌then◌else◌, inl, inr, arith,
}
use mathlib.Core.List.Memᴰ
use gohome.Automation.Reload.{
  Automation, drop_matcher, unregister_triggers, structurally_equal, reload, new_engine,
}

abbrev pub contained : ℕ → List ℕ → Bool
contained m [] = false
contained m (x ∷ xs) = if eqb m x then true else contained m xs

keep-drop :
    (x : ℕ) (xs ys : List ℕ)
    → keep_if (λ m. not (contained m xs)) (drop_matcher x ys)
      ≡ keep_if (λ m. not (contained m (x ∷ xs))) ys
unfolding drop_matcher
keep-drop x xs [] = refl
keep-drop x xs (y ∷ ys) = ground (arith, keep-drop x xs ys)

unregister-keep :
    (xs ys : List ℕ) → unregister_triggers xs ys ≡ keep_if (λ m. not (contained m xs)) ys
unregister-keep [] ys = all ys
  where
    all : (l : List ℕ) → l ≡ keep_if (λ m. not false) l
    all [] = refl
    all (y ∷ l) = ap (λ r. y ∷ r) (all l)
unregister-keep (x ∷ xs) ys = unregister-keep xs (drop_matcher x ys) ∙ keep-drop x xs ys

keep-all : (p : ℕ → Bool) (ys : List ℕ) → ((m : ℕ) → Memᴰ m ys → p m ≡ true) → keep_if p ys ≡ ys
keep-all p [] h = refl
keep-all p (y ∷ ys) h =
    rw (h y (Memᴰ.head refl)) (ap (λ r. y ∷ r) (keep-all p ys (λ m k. h m (Memᴰ.tail k))))

keep-none : (p : ℕ → Bool) (ys : List ℕ) → ((m : ℕ) → Memᴰ m ys → p m ≡ false) → keep_if p ys ≡ []
keep-none p [] h = refl
keep-none p (y ∷ ys) h = rw (h y (Memᴰ.head refl)) (keep-none p ys (λ m k. h m (Memᴰ.tail k)))

contained-mem : (m : ℕ) (xs : List ℕ) → Memᴰ m xs → contained m xs ≡ true
contained-mem m [] k = absurd (Memᴰ.not-nil k)
contained-mem m (x ∷ xs) k = elim (Memᴰ.cases_cons k) [
  | inl e ↦ rw ((eqb_iff m x).1 e) refl
  | inr later ↦ ground (arith, contained-mem m xs later)
]

unregister-own : (xs : List ℕ) → unregister_triggers xs xs ≡ []
unregister-own xs =
    unregister-keep xs xs
    ∙ keep-none (λ m. not (contained m xs)) xs (λ m k. rw (contained-mem m xs k) refl)

unregister-apart :
    (xs ys : List ℕ)
    → ((m : ℕ) → Memᴰ m ys → contained m xs ≡ false)
    → unregister_triggers xs ys ≡ ys
unregister-apart xs ys h =
    unregister-keep xs ys ∙ keep-all (λ m. not (contained m xs)) ys (λ m k. rw (h m k) refl)

-- The engine starts with one automation. A reload of an equal configuration compiles it again, with
-- other matchers: the engine keeps the old ones registered, and remembers the new ones. So a reload
-- after it that changes the automation, or removes it, takes out matchers that are not registered: the
-- first ones stay in the registry, besides those of the changed automation. Without the reload
-- between, the registry then has the matchers of the changed automation only.
pub reload-stale :
    (a again changed : Automation) (text : String)
    → a.source ≡ some text
    → again.source ≡ some text
    → again.id ≡ a.id
    → changed.id ≡ a.id
    → structurally_equal (some text) changed.source ≡ false
    → ((m : ℕ) → Memᴰ m a.triggers → contained m again.triggers ≡ false)
    → ((reload (some (changed ∷ [])) (reload (some (again ∷ [])) (new_engine (a ∷ [])))).registry
        ≡ a.triggers ++ changed.triggers)
      × ((reload (some []) (reload (some (again ∷ [])) (new_engine (a ∷ [])))).registry
          ≡ a.triggers)
      × ((reload (some (changed ∷ [])) (new_engine (a ∷ []))).registry ≡ changed.triggers)
unfolding reload new_engine
reload-stale a again changed text s s' i i' differs apart =
    let e1 : (again.id == a.id) ≡ true = (eq_iff again.id a.id).1 i in
    let e2 : (a.id == again.id) ≡ true = (eq_iff a.id again.id).1 (sym i) in
    let e3 : (changed.id == a.id) ≡ true = (eq_iff changed.id a.id).1 i' in
    let e4 : (a.id == changed.id) ≡ true = (eq_iff a.id changed.id).1 (sym i') in
    let e5 : (changed.id == again.id) ≡ true = (eq_iff changed.id again.id).1 (i' ∙ sym i) in
    let e6 : (again.id == changed.id) ≡ true = (eq_iff again.id changed.id).1 (i ∙ sym i') in
    let q1 : structurally_equal a.source again.source ≡ true =
      ap (λ x. structurally_equal x again.source) s
      ∙ ap (structurally_equal (some text)) s'
      ∙ eq_refl text in
    let q2 : structurally_equal again.source changed.source ≡ false =
      ap (λ x. structurally_equal x changed.source) s' ∙ differs in
    let q3 : structurally_equal a.source changed.source ≡ false =
      ap (λ x. structurally_equal x changed.source) s ∙ differs in
    (
      rw (e1, q1, e2, e5, q2, e6)
          (ap (λ l. l ++ changed.triggers) (unregister-apart again.triggers a.triggers apart)),
      rw (e1, q1, e2) (unregister-apart again.triggers a.triggers apart),
      rw (e3, q3, e4) (ap (λ l. l ++ changed.triggers) (unregister-own a.triggers)),
    )
