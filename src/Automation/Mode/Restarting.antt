-- ===== src/Automation/Mode/Restarting.antt =====
-- The mode restart: which runs are cancelled.
use gohome.Prelude.{
  ℕ, suc, ◌≤◌, ◌<◌, ◌≡◌, ◌≢◌, refl, sym, ◌∙◌, subst, Bool, true, false, List, [], ◌∷◌, ◌++◌, Option,
  none, some, eqb, eqb_iff, arith, if◌then◌else◌,
}
use gohome.Automation.Mode.{restart, Run, RunState, cancel, fire_mode, finish_run}

module _ {M : Type 0} where
  abbrev pub AllRuns : (Run M → Type 0) → List (Run M) → Type 0
  AllRuns Q [] = Unit
  AllRuns Q (r ∷ runs) = Q r × AllRuns Q runs

  -- the number of runs that are not cancelled
  abbrev pub live : List (Run M) → ℕ
  live [] = 0
  live (r ∷ runs) = if r.cancelled then live runs else suc (live runs)

  pub AllRuns-map :
      (Q R : Run M → Type 0)
      → ((r : Run M) → Q r → R r)
      → (runs : List (Run M)) → AllRuns Q runs
      → AllRuns R runs
  AllRuns-map Q R f [] h = tt
  AllRuns-map Q R f (r ∷ runs) (h, hs) = (f r h, AllRuns-map Q R f runs hs)

  AllRuns-without :
      (Q : Run M → Type 0) (xs : List (Run M)) (r : Run M) (ys : List (Run M))
      → AllRuns Q (xs ++ (r ∷ ys))
      → AllRuns Q (xs ++ ys)
  AllRuns-without Q [] r ys (h, hs) = hs
  AllRuns-without Q (x ∷ xs) r ys (h, hs) = (h, AllRuns-without Q xs r ys hs)

  -- generations fall from below `n`, the latest run first
  abbrev pub IsFalling : ℕ → List (Run M) → Type 0
  IsFalling n [] = Unit
  IsFalling n (r ∷ runs) = (r.generation < n) × IsFalling r.generation runs

  IsFalling-weaken : (n m : ℕ) (runs : List (Run M)) → n ≤ m → IsFalling n runs → IsFalling m runs
  IsFalling-weaken n m [] h k = tt
  IsFalling-weaken n m (r ∷ runs) h (k, ks) = (omega (arith, h, k), ks)

  IsFalling-below :
      (n : ℕ) (runs : List (Run M)) → IsFalling n runs → AllRuns (λ r. r.generation < n) runs
  IsFalling-below n [] h = tt
  IsFalling-below n (r ∷ runs) (h, hs) = (
    h,
    AllRuns-map (λ q. q.generation < r.generation) (λ q. q.generation < n)
        (λ q k. omega (arith, k, h)) runs (IsFalling-below r.generation runs hs),
  )

  IsFalling-without :
      (n : ℕ) (xs : List (Run M)) (r : Run M) (ys : List (Run M))
      → IsFalling n (xs ++ (r ∷ ys))
      → IsFalling n (xs ++ ys)
  IsFalling-without n [] r ys (h, hs) = IsFalling-weaken r.generation n ys (omega (arith, h)) hs
  IsFalling-without n (x ∷ xs) r ys (h, hs) = (h, IsFalling-without x.generation xs r ys hs)

  IsFalling-apart :
      (n : ℕ) (xs : List (Run M)) (r : Run M) (ys : List (Run M))
      → IsFalling n (xs ++ (r ∷ ys))
      → AllRuns (λ q. q.generation ≢ r.generation) (xs ++ ys)
  IsFalling-apart n [] r ys (h, hs) =
      AllRuns-map (λ q. q.generation < r.generation) (λ q. q.generation ≢ r.generation)
        (λ q k e. omega (arith, k, e)) ys (IsFalling-below r.generation ys hs)
  IsFalling-apart n (x ∷ xs) r ys (h, hs) =
      (above xs x.generation hs, IsFalling-apart x.generation xs r ys hs)
    where
      above : (zs : List (Run M)) (m : ℕ) → IsFalling m (zs ++ (r ∷ ys)) → m ≢ r.generation
      above [] m (k, ks) e = omega (arith, k, e)
      above (z ∷ zs) m (k, ks) e = omega (arith, k, e, (lower zs z.generation ks))
        where
          lower : (zs : List (Run M)) (m : ℕ) → IsFalling m (zs ++ (r ∷ ys)) → r.generation < m
          lower [] m (k, ks) = k
          lower (z ∷ zs) m (k, ks) = omega (arith, k, lower zs z.generation ks)

  -- a cancel reaches each run whose cancel is the active one
  cancel-AllRuns :
      (active : Option ℕ) (runs : List (Run M))
      → AllRuns (λ r. r.cancelled ≡ false → active ≡ some r.generation) runs
      → AllRuns (λ r. r.cancelled ≡ true) (cancel active runs)
  cancel-AllRuns none [] h = tt
  cancel-AllRuns none (r ∷ runs) (h, hs) = (of_flag r.cancelled h, cancel-AllRuns none runs hs)
    where
      of_flag : (b : Bool) → (b ≡ false → none ≡ some r.generation) → b ≡ true
      of_flag true k = refl
      of_flag false k = cc (k refl)
  cancel-AllRuns (some g) [] h = tt
  cancel-AllRuns (some g) (r ∷ runs) (h, hs) =
      (of_test (eqb r.generation g) r.cancelled refl refl, cancel-AllRuns (some g) runs hs)
    where
      of_test :
          (b c : Bool)
          → eqb r.generation g ≡ b
          → r.cancelled ≡ c
          → (if b then record r { cancelled = true } else r).cancelled ≡ true
      of_test true c p q = refl
      of_test false true p q = q
      of_test false false p q =
          let same : g ≡ r.generation = cc (h q) in
          cc (sym ((eqb_iff r.generation g).1 (sym same)) ∙ p)

  cancel-IsFalling :
      (n : ℕ) (active : Option ℕ) (runs : List (Run M))
      → IsFalling n runs
      → IsFalling n (cancel active runs)
  cancel-IsFalling n none runs h = h
  cancel-IsFalling n (some g) [] h = tt
  cancel-IsFalling n (some g) (r ∷ runs) (h, hs) =
      of_test (eqb r.generation g) (cancel-IsFalling r.generation (some g) runs hs)
    where
      of_test :
          (b : Bool)
          → IsFalling r.generation (cancel (some g) runs)
          → (let q = if b then record r { cancelled = true } else r in
              (q.generation < n) × IsFalling q.generation (cancel (some g) runs))
      of_test true later = (h, later)
      of_test false later = (h, later)

  -- in the mode that restarts
  pub record IsRestarting (s : RunState M) : Type 0 where
    pub falling : IsFalling (suc s.restart_gen) s.runs
    pub alive : AllRuns (λ r. r.cancelled ≡ false → s.active ≡ some r.generation) s.runs
    pub latest : (g : ℕ) → s.active ≡ some g → g ≡ s.restart_gen

  -- runs below a generation are not the active one
  none_live :
      (g n : ℕ) (runs : List (Run M))
      → IsFalling n runs
      → n ≤ g
      → AllRuns (λ r. r.cancelled ≡ false → some g ≡ some r.generation) runs
      → live runs ≡ 0
  none_live g n [] h k a = refl
  none_live g n (r ∷ runs) (h, hs) k (a, as') =
      of_flag r.cancelled refl (none_live g r.generation runs hs (omega (arith, h, k)) as')
    where
      of_flag :
          (b : Bool)
          → r.cancelled ≡ b
          → live runs ≡ 0
          → (if b then live runs else suc (live runs)) ≡ 0
      of_flag true q rest = rest
      of_flag false q rest =
          let same : g ≡ r.generation = cc (a q) in absurd (omega (arith, same, h, k))

  pub live_le :
      (active : Option ℕ) (n : ℕ) (runs : List (Run M))
      → IsFalling n runs
      → AllRuns (λ r. r.cancelled ≡ false → active ≡ some r.generation) runs
      → live runs ≤ 1
  live_le active n [] h a = omega arith
  live_le active n (r ∷ runs) (h, hs) (a, as') =
      of_flag r.cancelled refl (live_le active r.generation runs hs as')
    where
      of_flag :
          (b : Bool)
          → r.cancelled ≡ b
          → live runs ≤ 1
          → (if b then live runs else suc (live runs)) ≤ 1
      of_flag true q rest = rest
      of_flag false q rest =
          let none_left : live runs ≡ 0 =
            none_live r.generation r.generation runs hs (omega arith) (
              AllRuns-map _ (λ x. x.cancelled ≡ false → some r.generation ≡ some x.generation)
                (λ x f u. sym (a q) ∙ f u) runs as') in
          omega (arith, none_left)

  pub fire-IsRestarting :
      (m : M) (s : RunState M) → IsRestarting s → IsRestarting (fire_mode restart m s)
  fire-IsRestarting m s r =
      let cancelled = cancel-AllRuns s.active s.runs r.alive in
      record {
        falling = (omega arith, cancel-IsFalling (suc s.restart_gen) s.active s.runs r.falling);
        alive = (
          λ q. refl,
          AllRuns-map _ (λ x. x.cancelled ≡ false → some (suc s.restart_gen) ≡ some x.generation)
              (λ x h u. cc (sym h ∙ u)) (cancel s.active s.runs) cancelled,
        );
        latest = λ g e. cc;
      }

  pub finish-IsRestarting :
      (xs : List (Run M)) (r : Run M) (ys : List (Run M)) (s : RunState M)
      → s.runs ≡ xs ++ (r ∷ ys)
      → IsRestarting s
      → IsRestarting (finish_run restart r (xs ++ ys) s)
  unfolding finish_run
  finish-IsRestarting xs r ys s e h = of_test (eqb s.restart_gen r.generation) refl
    where
      falling : IsFalling (suc s.restart_gen) (xs ++ (r ∷ ys))
      falling = subst (IsFalling (suc s.restart_gen)) e h.falling

      alive : AllRuns (λ q. q.cancelled ≡ false → s.active ≡ some q.generation) (xs ++ ys)
      alive =
          AllRuns-without _ xs r ys
            (subst (AllRuns (λ q. q.cancelled ≡ false → s.active ≡ some q.generation)) e h.alive)

      both :
          (runs : List (Run M))
          → AllRuns (λ q. q.generation ≢ r.generation) runs
          → AllRuns (λ q. q.cancelled ≡ false → s.active ≡ some q.generation) runs
          → s.restart_gen ≡ r.generation
          → AllRuns (λ q. q.cancelled ≡ false → none ≡ some q.generation) runs
      both [] a b k = tt
      both (q ∷ runs) (a, as') (b, bs) k =
          (λ u. absurd (a (h.latest q.generation (b u) ∙ k)), both runs as' bs k)

      of_test :
          (b : Bool)
          → eqb s.restart_gen r.generation ≡ b
          → IsRestarting (record s { active = if b then none else s.active; runs = xs ++ ys })
      of_test true k = record {
        falling = IsFalling-without (suc s.restart_gen) xs r ys falling;
        alive =
            both (xs ++ ys) (IsFalling-apart (suc s.restart_gen) xs r ys falling) alive
              ((eqb_iff s.restart_gen r.generation).0 k);
        latest = λ g u. cc;
      }
      of_test false k = record {
        falling = IsFalling-without (suc s.restart_gen) xs r ys falling;
        alive = alive;
        latest = h.latest;
      }
