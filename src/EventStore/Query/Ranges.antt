-- ===== src/EventStore/Query/Ranges.antt =====
-- The rows of a range, where the positions of the log are 1, 2, 3 and so on.
use gohome.Prelude.{
  ℕ, zero, suc, ◌+◌, ◌-◌, ◌≤◌, ◌<◌, ◌≡◌, refl, ap, ◌∙◌, Bool, true, false, List, [], ◌∷◌, ◌++◌,
  arith, keep_if, take, length,
}
use gohome.EventStore.Event.{Event}
use gohome.EventStore.Store.Outcome.{IsNumbered}
use gohome.EventStore.Query.{in_range, select_rows}

module _ {P : Type 0} where
  -- what a query that has read the first rows of a log still reads
  abbrev pub up_to : ℕ → ℕ → List (Event P) → List (Event P)
  up_to from zero es = es
  up_to from (suc to) es = take (suc to - from) es

  keep_if-before :
      (from to n : ℕ) (es : List (Event P))
      → IsNumbered n es
      → n + length es ≤ from + 1
      → keep_if (λ e. in_range from to e.position) es ≡ []
  keep_if-before from to n [] h k = refl
  keep_if-before from to n (e ∷ es) (p, h) k =
      let out : in_range from to e.position ≡ false = rw p (ground (arith, k)) in
      rw (out, keep_if-before from to (suc n) es h (omega (arith, k))) refl

  keep_if-unbounded :
      (from n : ℕ) (es : List (Event P))
      → IsNumbered n es
      → from < n
      → keep_if (λ e. in_range from 0 e.position) es ≡ es
  keep_if-unbounded from n [] h k = refl
  keep_if-unbounded from n (e ∷ es) (p, h) k =
      let inside : in_range from 0 e.position ≡ true = rw p (ground (arith, k)) in
      rw (inside, keep_if-unbounded from (suc n) es h (omega (arith, k))) refl

  keep_if-bounded :
      (from to m n : ℕ) (es : List (Event P))
      → IsNumbered n es
      → from < n
      → m ≡ suc to + 1 - n
      → keep_if (λ e. in_range from (suc to) e.position) es ≡ take m es
  keep_if-bounded from to zero n [] h k e = refl
  keep_if-bounded from to (suc m) n [] h k e = refl
  keep_if-bounded from to zero n (x ∷ es) (p, h) k e =
      let out : in_range from (suc to) x.position ≡ false = rw p (ground (arith, k, e)) in
      rw (out, keep_if-bounded from to zero (suc n) es h (omega (arith, k)) (omega (arith, e))) refl
  keep_if-bounded from to (suc m) n (x ∷ es) (p, h) k e =
      let inside : in_range from (suc to) x.position ≡ true = rw p (ground (arith, k, e)) in
      rw (inside, keep_if-bounded from to m (suc n) es h (omega (arith, k)) (omega (arith, e))) refl

  keep_if-append :
      (p : Event P → Bool) (xs ys : List (Event P))
      → keep_if p (xs ++ ys) ≡ keep_if p xs ++ keep_if p ys
  keep_if-append p [] ys = refl
  keep_if-append p (x ∷ xs) ys = ground (arith, keep_if-append p xs ys)

  pub IsNumbered-after :
      (n m : ℕ) (xs ys : List (Event P))
      → IsNumbered n (xs ++ ys)
      → m ≡ n + length xs
      → IsNumbered m ys
  IsNumbered-after n m [] ys h e = let e' : m ≡ n = e ∙ omega arith in rw e' h
  IsNumbered-after n m (x ∷ xs) ys (p, h) e = IsNumbered-after (suc n) m xs ys h (omega (arith, e))

  pub IsNumbered-before :
      (n : ℕ) (xs ys : List (Event P)) → IsNumbered n (xs ++ ys) → IsNumbered n xs
  IsNumbered-before n [] ys h = tt
  IsNumbered-before n (x ∷ xs) ys (p, h) = (p, IsNumbered-before (suc n) xs ys h)

  -- A query from the end of `before` reads on from there, up to its last position and its limit.
  pub select_rows-after :
      (from to limit : ℕ) (before after : List (Event P))
      → IsNumbered 1 (before ++ after)
      → length before ≡ from
      → select_rows from to limit (before ++ after) ≡ take limit (up_to from to after)
  select_rows-after from to limit before after h e = ap (take limit) (
      keep_if-append (λ x. in_range from to x.position) before after
      ∙ rw (keep_if-before from to 1 before (IsNumbered-before 1 before after h) (omega (arith, e)))
          refl
      ∙ rest to (IsNumbered-after 1 (from + 1) before after h (omega (arith, e))))
    where
      rest :
          (to : ℕ)
          → IsNumbered (from + 1) after
          → keep_if (λ x. in_range from to x.position) after ≡ up_to from to after
      rest zero k = keep_if-unbounded from (from + 1) after k (omega arith)
      rest (suc to) k =
          keep_if-bounded from to (suc to - from) (from + 1) after k (omega arith) (omega arith)
