-- ===== src/Graph.antt =====
-- Reachability in a graph given by its successor function, and how many of the listed vertices a
-- set has not seen. The area tree and the role graph of internal/policy are such graphs.
use gohome.Prelude.{
  ℕ, suc, ◌≤◌, String, ◌≡◌, inl, inr, true, false, List, [], ◌∷◌, Memᴰ, arith, contains, length,
  Bool-cases, if◌then◌else◌, eq_iff, ◌==◌, string_eq,
}

abbrev pub In : List String → String → Type 0
In s x = contains s x ≡ true

-- the vertices that a walk from `a` meets, `a` among them
pub data Reach (next : String → List String) : String → String → Type 0 where
  here : {a : String} → Reach next a a
  step : {a b c : String} → Memᴰ b (next a) → Reach next b c → Reach next a c

pub Reach-trans :
    {next : String → List String} {a b c : String}
    → Reach next a b
    → Reach next b c
    → Reach next a c
Reach-trans here q = q
Reach-trans (step m p) q = step m (Reach-trans p q)

-- Whatever holds of a vertex and passes along edges holds of all that the vertex reaches.
pub along_reach {κ} :
    {next : String → List String} (P : String → Type κ)
    → ((x c : String) → P x → Memᴰ c (next x) → P c)
    → {a b : String} → Reach next a b
    → P a
    → P b
along_reach P closed here h = h
along_reach P closed (step {a} {b} m p) h = along_reach P closed p (closed a b h m)

-- a walk of one edge at least, and one that returns to its start
abbrev pub Leads : (String → List String) → String → String → Type 0
Leads next a b = (c : String) × Memᴰ c (next a) × Reach next c b

abbrev pub Cycle : (String → List String) → String → Type 0
Cycle next a = Leads next a a

-- A set that holds a vertex and is closed under edges holds all that the vertex reaches.
pub closed-Reach :
    {next : String → List String} (s : List String)
    → ((x c : String) → In s x → Memᴰ c (next x) → In s c)
    → {a b : String} → Reach next a b
    → In s a
    → In s b
closed-Reach s closed = along_reach (In s) closed

abbrev pub unseen : List String → List String → ℕ
unseen [] s = 0
unseen (k ∷ ks) s = let rest = unseen ks s in if contains s k then rest else suc rest

pub unseen-le-length : (ks s : List String) → unseen ks s ≤ length ks
unseen-le-length [] s = omega arith
unseen-le-length (k ∷ ks) s = ground (arith, unseen-le-length ks s)

pub unseen_mono :
    (ks s t : List String) → ((x : String) → In s x → In t x) → unseen ks t ≤ unseen ks s
unseen_mono [] s t h = omega arith
unseen_mono (k ∷ ks) s t h = ground (arith, unseen_mono ks s t h, h k)

unseen-cons-le : (ks s : List String) (a : String) → unseen ks (a ∷ s) ≤ unseen ks s
unseen-cons-le ks s a = unseen_mono ks s (a ∷ s) (λ x h. ground arith)

pub unseen-cons :
    (ks s : List String) (a : String)
    → In ks a
    → contains s a ≡ false
    → suc (unseen ks (a ∷ s)) ≤ unseen ks s
unseen-cons [] s a m h = cc
unseen-cons (k ∷ ks) s a m h = elim (Bool-cases (k == a)) [
  | inl e ↦ ground (arith, eq_iff k a, eq_iff a k, unseen-cons-le ks s a)
  | inr ne ↦ ground (arith, eq_iff k a, eq_iff a k, unseen-cons ks s a)
]
