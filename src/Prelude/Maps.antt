-- ===== src/Prelude/Maps.antt =====
-- Go's `map[K]V` as an association list, read by key only, and `map[K]struct{}` as a list of keys.
-- Where the program ranges over a map, the order of the list stands for the order Go picks.
use mathlib.Core.Path.{◌≡◌, refl}
use mathlib.Core.Logic.{inl, inr}
use mathlib.Core.Bool.{Bool, true, false, ◌||◌}
use mathlib.Core.List.{List, [], ◌∷◌, Memᴰ}
use mathlib.Core.List.Memᴰ
use mathlib.Core.Option.{Option, none, some}
use native.Mathlib.Omega.{arith}
use gohome.Prelude.Tests.{Eq, if◌then◌else◌, Bool-cases}

module _ {ℓ} {K : Type ℓ} ⦃e : Eq K⦄ where
  -- `_, ok := set[k]`
  abbrev pub contains : List K → K → Bool
  contains [] k = false
  contains (x ∷ xs) k = e.beq x k || contains xs k

  -- `set[k] = struct{}{}`
  abbrev pub add : K → List K → List K
  add k s = if contains s k then s else k ∷ s

  pub beq_refl : (k : K) → e.beq k k ≡ true
  beq_refl k = (e.beq_iff k k).1 refl

  pub contains→mem : (xs : List K) (k : K) → contains xs k ≡ true → Memᴰ k xs
  contains→mem [] k h = cc
  contains→mem (x ∷ xs) k h = elim (Bool-cases (e.beq x k)) [
    | inl t ↦ Memᴰ.head (sym_of x k t)
    | inr f ↦ Memᴰ.tail (contains→mem xs k (rw f at h))
  ]
    where
      sym_of : (a b : K) → e.beq a b ≡ true → b ≡ a
      sym_of a b t = cc ((e.beq_iff a b).0 t)

  pub mem→contains : (xs : List K) (k : K) → Memᴰ k xs → contains xs k ≡ true
  mem→contains [] k m = absurd (Memᴰ.not-nil m)
  mem→contains (x ∷ xs) k m = elim (Memᴰ.cases_cons m) [
    | inl p ↦ rw (p, beq_refl x) refl
    | inr later ↦ ground (arith, mem→contains xs k later)
  ]

  pub contains-add :
      (a : K) (s : List K) (k : K) → contains (add a s) k ≡ (e.beq a k || contains s k)
  contains-add a s k = elim (Bool-cases (contains s a)) [
    | inl old ↦ ground (arith, e.beq_iff a k, old)
    | inr new ↦ rw new refl
  ]

module _ {ℓ κ} {K : Type ℓ} {V : Type κ} where
  abbrev pub keys : List (K × V) → List K
  keys [] = []
  keys ((j, w) ∷ m) = j ∷ keys m

module _ {ℓ κ} {K : Type ℓ} {V : Type κ} ⦃e : Eq K⦄ where
  -- `m[k]`, with the `ok` of a comma-ok read
  abbrev pub lookup : K → List (K × V) → Option V
  lookup k [] = none
  lookup k ((j, v) ∷ m) = if e.beq j k then some v else lookup k m

  -- `m[k] = v`
  abbrev pub insert : K → V → List (K × V) → List (K × V)
  insert k v [] = (k, v) ∷ []
  insert k v ((j, w) ∷ m) = if e.beq j k then (k, v) ∷ m else (j, w) ∷ insert k v m

  pub lookup-none : (k : K) (m : List (K × V)) → contains (keys m) k ≡ false → lookup k m ≡ none
  lookup-none k [] h = refl
  lookup-none k ((j, v) ∷ m) h = ground (arith, lookup-none k m)

  -- `delete(m, k)`
  abbrev pub erase : K → List (K × V) → List (K × V)
  erase k [] = []
  erase k ((j, w) ∷ m) = let rest = erase k m in if e.beq j k then rest else (j, w) ∷ rest

  pub lookup-insert :
      (k j : K) (v : V) (m : List (K × V))
      → lookup j (insert k v m) ≡ (if e.beq k j then some v else lookup j m)
  lookup-insert k j v [] = refl
  lookup-insert k j v ((i, w) ∷ m) =
      ground (arith, e.beq_iff k j, e.beq_iff i k, e.beq_iff i j, lookup-insert k j v m)

  pub lookup-erase :
      (k j : K) (m : List (K × V)) → lookup j (erase k m) ≡ (if e.beq k j then none else lookup j m)
  lookup-erase k j [] = ground arith
  lookup-erase k j ((i, w) ∷ m) =
      ground (arith, e.beq_iff k j, e.beq_iff i k, e.beq_iff i j, lookup-erase k j m)

  pub contains-keys-insert :
      (k j : K) (v : V) (m : List (K × V))
      → contains (keys (insert k v m)) j ≡ (e.beq k j || contains (keys m) j)
  contains-keys-insert k j v [] = refl
  contains-keys-insert k j v ((i, w) ∷ m) =
      ground (arith, e.beq_iff i k, beq_refl k, contains-keys-insert k j v m)

  pub contains-keys-erase :
      (k j : K) (m : List (K × V))
      → contains (keys m) j ≡ false
      → contains (keys (erase k m)) j ≡ false
  contains-keys-erase k j [] h = refl
  contains-keys-erase k j ((i, w) ∷ m) h = ground (arith, contains-keys-erase k j m)

-- `m[k]` of a map whose missing keys read as the zero value
abbrev pub or_zero {ℓ} : {A : Type ℓ} → A → Option A → A
or_zero z none = z
or_zero z (some a) = a
