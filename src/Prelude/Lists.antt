-- ===== src/Prelude/Lists.antt =====
-- Lists measured by native numbers, and the loops `for … { if … return }` over them.
use Prim.Native.Nat.{ℕ, zero, suc, ◌+◌, ◌≤◌}
use mathlib.Core.Path.{◌≡◌, refl, sym, ap, ◌∙◌}
use mathlib.Core.Logic.{◌↔◌, inl, inr}
use mathlib.Core.Bool.{Bool, true, false, ◌&&◌, ◌||◌}
use mathlib.Core.List.{List, [], ◌∷◌, ◌++◌, Memᴰ}
use mathlib.Core.List.Memᴰ
use native.Mathlib.Omega.{arith}
use gohome.Prelude.Tests.{if◌then◌else◌, Bool-cases}

module _ {ℓ} {A : Type ℓ} where
  abbrev pub length : List A → ℕ
  length [] = 0
  length (_ ∷ xs) = suc (length xs)

  -- `len(xs) == 0`
  abbrev pub is_empty : List A → Bool
  is_empty [] = true
  is_empty (_ ∷ _) = false

  abbrev pub any : (A → Bool) → List A → Bool
  any p [] = false
  any p (x ∷ xs) = p x || any p xs

  abbrev pub all : (A → Bool) → List A → Bool
  all p [] = true
  all p (x ∷ xs) = p x && all p xs

  abbrev pub keep_if : (A → Bool) → List A → List A
  keep_if p [] = []
  keep_if p (x ∷ xs) = let rest = keep_if p xs in if p x then x ∷ rest else rest

  abbrev pub take : ℕ → List A → List A
  take zero xs = []
  take (suc n) [] = []
  take (suc n) (x ∷ xs) = x ∷ take n xs

  abbrev pub drop : ℕ → List A → List A
  drop zero xs = xs
  drop (suc n) [] = []
  drop (suc n) (x ∷ xs) = drop n xs

  pub take-append-drop : (n : ℕ) (xs : List A) → xs ≡ take n xs ++ drop n xs
  take-append-drop zero xs = refl
  take-append-drop (suc n) [] = refl
  take-append-drop (suc n) (x ∷ xs) = ap (λ l. x ∷ l) (take-append-drop n xs)

  pub length-take : (n : ℕ) (xs : List A) → length (take n xs) ≤ n
  length-take zero xs = omega arith
  length-take (suc n) [] = omega arith
  length-take (suc n) (x ∷ xs) = omega (arith, length-take n xs)

  pub length-take-short : (n : ℕ) (xs : List A) → n ≤ length xs → length (take n xs) ≡ n
  length-take-short zero xs h = refl
  length-take-short (suc n) [] h = absurd (omega (arith, h))
  length-take-short (suc n) (x ∷ xs) h = ap suc (length-take-short n xs (omega (arith, h)))

  pub length-append : (xs ys : List A) → length (xs ++ ys) ≡ length xs + length ys
  length-append [] ys = omega arith
  length-append (x ∷ xs) ys = omega (arith, length-append xs ys)

-- `ys` are the elements of `xs` with the property, all of them, in their order
pub data FilteredBy {A : Type 0} (Q : A → Type 0) : List A → List A → Type 0 where
  nothing_left : FilteredBy Q [] []
  kept : {x : A} {xs ys : List A} → Q x → FilteredBy Q xs ys → FilteredBy Q (x ∷ xs) (x ∷ ys)
  dropped : {x : A} {xs ys : List A} → ¬ Q x → FilteredBy Q xs ys → FilteredBy Q (x ∷ xs) ys

pub keep_if-FilteredBy :
    {A : Type 0} (Q : A → Type 0) (p : A → Bool)
    → ((x : A) → (p x ≡ true) ↔ Q x)
    → (xs : List A) → FilteredBy Q xs (keep_if p xs)
keep_if-FilteredBy Q p h [] = nothing_left
keep_if-FilteredBy Q p h (x ∷ xs) = elim (Bool-cases (p x)) [
  | inl t ↦ rw t (kept ((h x).0 t) (keep_if-FilteredBy Q p h xs))
  | inr f ↦ rw f (dropped (λ q. cc (sym f ∙ (h x).1 q)) (keep_if-FilteredBy Q p h xs))
]

module _ {ℓ} {A : Type ℓ} (p : A → Bool) where
  pub any_elim : (xs : List A) → any p xs ≡ true → (x : A) × Memᴰ x xs × (p x ≡ true)
  any_elim [] h = cc
  any_elim (x ∷ xs) h = elim (Bool-cases (p x)) [
    | inl t ↦ (x, Memᴰ.head refl, t)
    | inr f ↦ let (y, m, t) = any_elim xs (rw f at h) in (y, Memᴰ.tail m, t)
  ]

  pub any_intro : (x : A) (xs : List A) → Memᴰ x xs → p x ≡ true → any p xs ≡ true
  any_intro x [] m t = absurd (Memᴰ.not-nil m)
  any_intro x (y ∷ ys) m t = elim (Memᴰ.cases_cons m) [
    | inl e ↦ rw (← e, t) refl
    | inr later ↦ ground (arith, any_intro x ys later t)
  ]

  pub all_elim : (x : A) (xs : List A) → Memᴰ x xs → all p xs ≡ true → p x ≡ true
  all_elim x [] m t = absurd (Memᴰ.not-nil m)
  all_elim x (y ∷ ys) m t = elim (Memᴰ.cases_cons m) [
    | inl e ↦ rw e (ground arith)
    | inr later ↦ all_elim x ys later (ground arith)
  ]

  pub all_intro : (xs : List A) → ((x : A) → Memᴰ x xs → p x ≡ true) → all p xs ≡ true
  all_intro [] h = refl
  all_intro (x ∷ xs) h =
      ground (arith, h x (Memᴰ.head refl), all_intro xs (λ y m. h y (Memᴰ.tail m)))

  pub any-append : (xs ys : List A) → any p (xs ++ ys) ≡ any p xs || any p ys
  any-append [] ys = refl
  any-append (x ∷ xs) ys = ground (arith, any-append xs ys)

  pub mem-keep_if : (x : A) (xs : List A) → Memᴰ x (keep_if p xs) → Memᴰ x xs × (p x ≡ true)
  mem-keep_if x [] m = absurd (Memᴰ.not-nil m)
  mem-keep_if x (y ∷ ys) m = elim (Bool-cases (p y)) [
    | inl t ↦ elim (Memᴰ.cases_cons (rw t at m)) [
      | inl e ↦ (Memᴰ.head e, rw e t)
      | inr later ↦ let (n, u) = mem-keep_if x ys later in (Memᴰ.tail n, u)
    ]
    | inr f ↦ let (n, u) = mem-keep_if x ys (rw f at m) in (Memᴰ.tail n, u)
  ]

  pub keep_if-mem : (x : A) (xs : List A) → Memᴰ x xs → p x ≡ true → Memᴰ x (keep_if p xs)
  keep_if-mem x [] m t = absurd (Memᴰ.not-nil m)
  keep_if-mem x (y ∷ ys) m t = elim (Memᴰ.cases_cons m) [
    | inl e ↦ rw (← e, t) (Memᴰ.head refl)
    | inr later ↦ elim (Bool-cases (p y)) [
      | inl u ↦ rw u (Memᴰ.tail (keep_if-mem x ys later t))
      | inr f ↦ rw f (keep_if-mem x ys later t)
    ]
  ]
