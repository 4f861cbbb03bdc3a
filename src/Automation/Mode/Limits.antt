-- ===== src/Automation/Mode/Limits.antt =====
-- What each mode limits, after any steps.
use gohome.Prelude.{
  ℕ, suc, ◌≤◌, ◌≡◌, refl, sym, ap, ◌∙◌, Bool, true, false, List, [], ◌∷◌, ◌++◌, ltb, ltb→lt, length,
  length-append, arith, if◌then◌else◌, inl, inr, ◌⊎◌,
}
use mathlib.Core.List.{append_assoc}
use gohome.Automation.Mode.{
  Mode, single, queued, restart, parallel, Run, RunState, new_run_state, emit_skipped, new_run,
  fire_mode, fire, finish_run, pump, drain, Pump, unstarted, waiting, draining, ended, executing,
  start_pump, Step, fires, finishes, takes, returns, stops, drains, ends, enables, Steps, here,
  next,
}
use gohome.Automation.Mode.Restarting.{
  AllRuns, live, AllRuns-map, IsRestarting, live_le, fire-IsRestarting, finish-IsRestarting,
}

module _ {M : Type 0} where
  -- the pump takes matches, or will
  abbrev pub is_serving : Pump M → Bool
  is_serving unstarted = true
  is_serving waiting = true
  is_serving draining = false
  is_serving ended = false
  is_serving (executing m) = true

  start_pump-is_serving : (p : Pump M) → is_serving (start_pump p) ≡ is_serving p
  start_pump-is_serving unstarted = refl
  start_pump-is_serving waiting = refl
  start_pump-is_serving draining = refl
  start_pump-is_serving ended = refl
  start_pump-is_serving (executing m) = refl

  -- each match that was accepted has begun, or was drained, or is in the queue, in this order;
  -- none is drained while the pump serves
  record IsQueue (s : RunState M) : Type 0 where
    alone : s.runs ≡ []
    bounded : length s.queue ≤ s.max_queued
    ordered : s.accepted ≡ s.begun ++ (s.drained ++ s.queue)
    served : is_serving s.pumping ≡ true → s.drained ≡ []

  -- what each mode keeps
  abbrev Keeps : Mode → RunState M → Type 0
  Keeps single s = (s.runs ≡ []) ⊎ ((r : Run M) × (s.runs ≡ r ∷ []) × (s.running ≡ true))
  Keeps queued s = IsQueue s
  Keeps restart s = IsRestarting s
  Keeps parallel s = (s.skipped ≡ []) × (s.queue ≡ [])

  -- what each mode promises
  abbrev pub IsLimited : Mode → RunState M → Type 0
  IsLimited single s = length s.runs ≤ 1
  IsLimited queued s =
      (length s.queue ≤ s.max_queued)
      × (s.accepted ≡ s.begun ++ (s.drained ++ s.queue))
      × (is_serving s.pumping ≡ true → s.drained ≡ [])
      × (s.runs ≡ [])
  IsLimited restart s =
      (live s.runs ≤ 1) × AllRuns (λ r. r.cancelled ≡ false → r.generation ≡ s.restart_gen) s.runs
  IsLimited parallel s = s.skipped ≡ []

  Keeps-IsLimited : (mode : Mode) (s : RunState M) → Keeps mode s → IsLimited mode s
  Keeps-IsLimited single s (inl idle) = rw idle (omega arith)
  Keeps-IsLimited single s (inr (r, one, busy)) = rw one (omega arith)
  Keeps-IsLimited queued s h = (h.bounded, h.ordered, h.served, h.alone)
  Keeps-IsLimited restart s h = (
    live_le s.active (suc s.restart_gen) s.runs h.falling h.alive,
    AllRuns-map _ (λ r. r.cancelled ≡ false → r.generation ≡ s.restart_gen)
        (λ r a u. h.latest r.generation (a u)) s.runs h.alive,
  )
  Keeps-IsLimited parallel s h = h.0

  fire_mode-Keeps :
      (mode : Mode) (m : M) (s : RunState M) → Keeps mode s → Keeps mode (fire_mode mode m s)
  fire_mode-Keeps single m s h = of_flag s.running refl h
    where
      of_flag :
          (b : Bool)
          → s.running ≡ b
          → Keeps single s
          → Keeps single (
              if b
              then emit_skipped m "already running" s
              else record s { running = true; runs = new_run 0 m ∷ s.runs })
      of_flag true p h = h
      of_flag false p (inl idle) = inr (new_run 0 m, ap (λ l. new_run 0 m ∷ l) idle, refl)
      of_flag false p (inr (r, one, busy)) = cc (sym busy ∙ p)
  fire_mode-Keeps queued m s h = of_room (ltb (length s.queue) s.max_queued) refl h
    where
      of_room :
          (b : Bool)
          → ltb (length s.queue) s.max_queued ≡ b
          → IsQueue s
          → IsQueue (
              if b
              then record s {
                queue = s.queue ++ (m ∷ []);
                accepted = s.accepted ++ (m ∷ []);
                pumping = start_pump s.pumping;
              }
              else emit_skipped m "queue full" s)
      of_room true p h = record {
        alone = h.alone;
        bounded =
            omega (arith, length-append s.queue (m ∷ []), ltb→lt (length s.queue) s.max_queued p);
        ordered =
            ap (λ l. l ++ (m ∷ [])) h.ordered
            ∙ append_assoc s.begun (s.drained ++ s.queue) (m ∷ [])
            ∙ ap (λ l. s.begun ++ l) (append_assoc s.drained s.queue (m ∷ []));
        served = λ u. h.served (sym (start_pump-is_serving s.pumping) ∙ u);
      }
      of_room false p h = record {
        alone = h.alone;
        bounded = h.bounded;
        ordered = h.ordered;
        served = h.served;
      }
  fire_mode-Keeps restart m s h = fire-IsRestarting m s h
  fire_mode-Keeps parallel m s h = h

  finish_run-Keeps :
      (mode : Mode) (xs : List (Run M)) (r : Run M) (ys : List (Run M)) (s : RunState M)
      → s.runs ≡ xs ++ (r ∷ ys)
      → Keeps mode s
      → Keeps mode (finish_run mode r (xs ++ ys) s)
  unfolding finish_run
  finish_run-Keeps single [] r ys s e (inl idle) = cc (sym idle ∙ e)
  finish_run-Keeps single (x ∷ xs) r ys s e (inl idle) = cc (sym idle ∙ e)
  finish_run-Keeps single [] r ys s e (inr (q, one, busy)) =
      let none_left : [] ≡ ys = cc (sym one ∙ e) in inl (sym none_left)
  finish_run-Keeps single (x ∷ xs) r ys s e (inr (q, one, busy)) =
      absurd (omega (arith, ap length (sym one ∙ e), length-append xs (r ∷ ys)))
  finish_run-Keeps queued [] r ys s e h = cc (sym h.alone ∙ e)
  finish_run-Keeps queued (x ∷ xs) r ys s e h = cc (sym h.alone ∙ e)
  finish_run-Keeps restart xs r ys s e h = finish-IsRestarting xs r ys s e h
  finish_run-Keeps parallel xs r ys s e h = h

  fire-Keeps : (mode : Mode) (m : M) (s : RunState M) → Keeps mode s → Keeps mode (fire mode m s)
  unfolding fire
  fire-Keeps mode m s h = of_flag s.enabled
    where
      of_flag : (b : Bool) → Keeps mode (if b then fire_mode mode m s else s)
      of_flag true = fire_mode-Keeps mode m s h
      of_flag false = h

  pump-Keeps :
      (mode : Mode) (m : M) (rest : List M) (s : RunState M)
      → s.pumping ≡ waiting
      → s.queue ≡ m ∷ rest
      → Keeps mode s
      → Keeps mode (pump m rest s)
  pump-Keeps single m rest s w e h = h
  pump-Keeps queued m rest s w e h =
      let clear : s.drained ≡ [] = h.served (ap is_serving w) in
      record {
        alone = h.alone;
        bounded = omega (arith, h.bounded, ap length e);
        ordered =
            h.ordered
            ∙ ap (λ l. s.begun ++ (l ++ s.queue)) clear
            ∙ ap (λ l. s.begun ++ l) e
            ∙ sym (append_assoc s.begun (m ∷ []) rest)
            ∙ ap (λ l. (s.begun ++ (m ∷ [])) ++ (l ++ rest)) (sym clear);
        served = λ u. clear;
      }
  pump-Keeps restart m rest s w e h = record {
    falling = h.falling;
    alive = h.alive;
    latest = h.latest;
  }
  pump-Keeps parallel m rest s w e h = cc (sym h.1 ∙ e)

  -- the pump moves on, and leaves the matches as they are
  moved-Keeps :
      (mode : Mode) (p : Pump M) (s : RunState M)
      → (is_serving p ≡ true → is_serving s.pumping ≡ true)
      → Keeps mode s
      → Keeps mode (record s { pumping = p })
  moved-Keeps single p s k h = h
  moved-Keeps queued p s k h = record {
    alone = h.alone;
    bounded = h.bounded;
    ordered = h.ordered;
    served = λ u. h.served (k u);
  }
  moved-Keeps restart p s k h = record { falling = h.falling; alive = h.alive; latest = h.latest }
  moved-Keeps parallel p s k h = h

  drain-Keeps :
      (mode : Mode) (m : M) (rest : List M) (s : RunState M)
      → s.pumping ≡ draining
      → s.queue ≡ m ∷ rest
      → Keeps mode s
      → Keeps mode (drain m rest s)
  drain-Keeps single m rest s w e h = h
  drain-Keeps queued m rest s w e h = record {
    alone = h.alone;
    bounded = omega (arith, h.bounded, ap length e);
    ordered =
        h.ordered
        ∙ ap (λ l. s.begun ++ (s.drained ++ l)) e
        ∙ ap (λ l. s.begun ++ l) (sym (append_assoc s.drained (m ∷ []) rest));
    served = λ u. cc (sym (ap is_serving w) ∙ u);
  }
  drain-Keeps restart m rest s w e h = record {
    falling = h.falling;
    alive = h.alive;
    latest = h.latest;
  }
  drain-Keeps parallel m rest s w e h = cc (sym h.1 ∙ e)

  enable-Keeps :
      (mode : Mode) (b : Bool) (s : RunState M)
      → Keeps mode s
      → Keeps mode (record s { enabled = b })
  enable-Keeps single b s h = h
  enable-Keeps queued b s h = record {
    alone = h.alone;
    bounded = h.bounded;
    ordered = h.ordered;
    served = h.served;
  }
  enable-Keeps restart b s h = record { falling = h.falling; alive = h.alive; latest = h.latest }
  enable-Keeps parallel b s h = h

  Step-Keeps : (mode : Mode) {s t : RunState M} → Step mode s t → Keeps mode s → Keeps mode t
  Step-Keeps mode {s = s} (fires m) h = fire-Keeps mode m s h
  Step-Keeps mode {s = s} (finishes xs r ys e) h = finish_run-Keeps mode xs r ys s e h
  Step-Keeps mode {s = s} (takes m rest w e) h = pump-Keeps mode m rest s w e h
  Step-Keeps mode {s = s} (returns m e) h = moved-Keeps mode waiting s (λ u. ap is_serving e) h
  Step-Keeps mode {s = s} (stops w) h = moved-Keeps mode draining s (λ u. ap is_serving w) h
  Step-Keeps mode {s = s} (drains m rest w e) h = drain-Keeps mode m rest s w e h
  Step-Keeps mode {s = s} (ends w e) h = moved-Keeps mode ended s (λ u. cc) h
  Step-Keeps mode {s = s} (enables b) h = enable-Keeps mode b s h

  Steps-Keeps : (mode : Mode) {s t : RunState M} → Steps mode s t → Keeps mode s → Keeps mode t
  Steps-Keeps mode here h = h
  Steps-Keeps mode (next run step) h = Step-Keeps mode step (Steps-Keeps mode run h)

new-Keeps :
    (M : Type 0) (mode : Mode) (enabled : Bool) (max_queued : ℕ)
    → Keeps mode (new_run_state {M = M} enabled max_queued)
new-Keeps M single enabled max_queued = inl refl
new-Keeps M queued enabled max_queued = record {
  alone = refl;
  bounded = omega arith;
  ordered = refl;
  served = λ u. refl;
}
new-Keeps M restart enabled max_queued = record { falling = tt; alive = tt; latest = λ g e. cc }
new-Keeps M parallel enabled max_queued = (refl, refl)

-- From a new run state, after any steps: matches that fire, runs that end in any order, steps of the
-- pump, its end included, and enabling and disabling. In the mode single there is at most one run. In
-- the mode queued the queue holds at most `MaxQueued` matches, and only the pump runs them; the matches
-- that were accepted are, in the order in which they came, those that have begun, those that the pump
-- has drained, and the queue, and none is drained while the pump serves. In the mode restart at most one run
-- is not cancelled, and it is the latest. In the mode parallel no match is skipped.
pub Steps-IsLimited :
    {M : Type 0} (mode : Mode) (enabled : Bool) (max_queued : ℕ) (t : RunState M)
    → Steps mode (new_run_state enabled max_queued) t
    → IsLimited mode t
Steps-IsLimited {M} mode enabled max_queued t run =
    Keeps-IsLimited mode t (Steps-Keeps mode run (new-Keeps M mode enabled max_queued))
