-- ===== src/Automation/Mode.antt =====
-- `fire` and `queuePump` of internal/automation/engine.go, with the run state of mode.go: one
-- automation, whose mode and limits no reload changes. A step is a call of `fire`, the end of a
-- run, or a step of the pump. The pump is started once, by the first match that is queued, with the
-- context of that `fire`: the engine's, or for `Trigger` the caller's. Once this context is done it
-- may drain the queue and end.
pub mod Restarting
pub mod Limits
pub mod Stranded
use gohome.Prelude.{
  ℕ, suc, String, ◌≡◌, Bool, true, false, List, [], ◌∷◌, ◌++◌, Option, none, some, ltb, eqb, length,
  if◌then◌else◌,
}

pub data Mode : Type 0 where
  single queued restart parallel : Mode

pub record Run (M : Type 0) : Type 0 where
  pub generation : ℕ
  pub match : M
  pub cancelled : Bool

-- where the goroutine of `queuePump` stands
pub data Pump (M : Type 0) : Type 0 where
  unstarted waiting draining ended : Pump M
  executing : M → Pump M

-- `active` is the generation whose `activeCancel` is set; `runs` are the goroutines that execute a
-- run, the latest first. `accepted`, `begun`, `drained` and `skipped` record what has become of the
-- matches.
pub record RunState (M : Type 0) : Type 0 where
  pub enabled : Bool
  pub max_queued : ℕ
  pub running : Bool
  pub active : Option ℕ
  pub restart_gen : ℕ
  pub queue : List M
  pub pumping : Pump M
  pub runs : List (Run M)
  pub accepted : List M
  pub begun : List M
  pub drained : List M
  pub skipped : List (M × String)

module _ {M : Type 0} where
  abbrev pub new_run_state : Bool → ℕ → RunState M
  new_run_state enabled max_queued = record {
    enabled = enabled;
    max_queued = max_queued;
    running = false;
    active = none;
    restart_gen = 0;
    queue = [];
    pumping = unstarted;
    runs = [];
    accepted = [];
    begun = [];
    drained = [];
    skipped = [];
  }

  abbrev pub emit_skipped : M → String → RunState M → RunState M
  emit_skipped m reason s = record s { skipped = s.skipped ++ ((m, reason) ∷ []) }

  abbrev pub new_run : ℕ → M → Run M
  new_run generation m = record { generation = generation; match = m; cancelled = false }

  -- `activeCancel()`
  abbrev pub cancel : Option ℕ → List (Run M) → List (Run M)
  cancel none runs = runs
  cancel (some g) [] = []
  cancel (some g) (r ∷ runs) =
      (if eqb r.generation g then record r { cancelled = true } else r) ∷ cancel (some g) runs

  -- `startPumpOnce`: a pump that has ended is not started again
  abbrev pub start_pump : Pump M → Pump M
  start_pump unstarted = waiting
  start_pump waiting = waiting
  start_pump draining = draining
  start_pump ended = ended
  start_pump (executing m) = executing m

  abbrev pub fire_mode : Mode → M → RunState M → RunState M
  fire_mode single m s =
      if s.running
      then emit_skipped m "already running" s
      else record s { running = true; runs = new_run 0 m ∷ s.runs }
  fire_mode restart m s = record s {
    active = some (suc s.restart_gen);
    restart_gen = suc s.restart_gen;
    runs = new_run (suc s.restart_gen) m ∷ cancel s.active s.runs;
  }
  fire_mode queued m s =
      if ltb (length s.queue) s.max_queued
      then record s {
        queue = s.queue ++ (m ∷ []);
        accepted = s.accepted ++ (m ∷ []);
        pumping = start_pump s.pumping;
      }
      else emit_skipped m "queue full" s
  fire_mode parallel m s = record s { runs = new_run 0 m ∷ s.runs }

  unfoldable pub fire : Mode → M → RunState M → RunState M
  fire mode m s = if s.enabled then fire_mode mode m s else s

  -- what a run does when `executeRun` has returned; `rest` are the other runs
  unfoldable pub finish_run : Mode → Run M → List (Run M) → RunState M → RunState M
  finish_run single r rest s = record s { running = false; runs = rest }
  finish_run queued r rest s = record s { runs = rest }
  finish_run restart r rest s = record s {
    active = if eqb s.restart_gen r.generation then none else s.active;
    runs = rest;
  }
  finish_run parallel r rest s = record s { runs = rest }

  -- a turn of `queuePump`: it takes the first match, or it has run one
  abbrev pub pump : M → List M → RunState M → RunState M
  pump m rest s = record s { queue = rest; pumping = executing m; begun = s.begun ++ (m ∷ []) }

  abbrev pub pumped : RunState M → RunState M
  pumped s = record s { pumping = waiting }

  -- its context is done: it drains the queue, and ends when it finds it empty
  abbrev pub stop_pump : RunState M → RunState M
  stop_pump s = record s { pumping = draining }

  abbrev pub drain : M → List M → RunState M → RunState M
  drain m rest s =
      emit_skipped m "shutdown" (record s { queue = rest; drained = s.drained ++ (m ∷ []) })

  abbrev pub end_pump : RunState M → RunState M
  end_pump s = record s { pumping = ended }

  pub data Step (mode : Mode) (s : RunState M) : RunState M → Type 0 where
    fires : (m : M) → Step mode s (fire mode m s)
    finishes :
        (xs : List (Run M)) (r : Run M) (ys : List (Run M))
        → s.runs ≡ xs ++ (r ∷ ys)
        → Step mode s (finish_run mode r (xs ++ ys) s)
    takes :
        (m : M) (rest : List M)
        → s.pumping ≡ waiting
        → s.queue ≡ m ∷ rest
        → Step mode s (pump m rest s)
    returns : (m : M) → s.pumping ≡ executing m → Step mode s (pumped s)
    stops : s.pumping ≡ waiting → Step mode s (stop_pump s)
    drains :
        (m : M) (rest : List M)
        → s.pumping ≡ draining
        → s.queue ≡ m ∷ rest
        → Step mode s (drain m rest s)
    ends : s.pumping ≡ draining → s.queue ≡ [] → Step mode s (end_pump s)
    enables : (enabled : Bool) → Step mode s (record s { enabled = enabled })

  pub data Steps (mode : Mode) (s : RunState M) : RunState M → Type 0 where
    here : Steps mode s s
    next : {t u : RunState M} → Steps mode s t → Step mode t u → Steps mode s u
