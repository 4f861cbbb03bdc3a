-- ===== src/Automation/Mode/Stranded.antt =====
-- A pump that has ended: `startPumpOnce` starts none after it.
use gohome.Prelude.{
  ◌≡◌, refl, sym, ap, ◌∙◌, Bool, true, false, List, [], ◌∷◌, ◌++◌, ltb, length, if◌then◌else◌,
}
use mathlib.Core.List.{append_assoc, append-nil}
use gohome.Automation.Mode.{
  queued, RunState, ended, emit_skipped, start_pump, fire_mode, fire, finish_run, Step, fires,
  finishes, takes, returns, stops, drains, ends, enables, Steps, here, next,
}

module _ {M : Type 0} where
  -- what was queued is where it was, behind it what was accepted later
  pub record IsStranded (s t : RunState M) : Type 0 where
    pub stopped : t.pumping ≡ ended
    pub begun : t.begun ≡ s.begun
    pub drained : t.drained ≡ s.drained
    pub later : List M
    pub queue : t.queue ≡ s.queue ++ later
    pub accepted : t.accepted ≡ s.accepted ++ later

  module _ (s : RunState M) where
    fire-IsStranded : (m : M) (t : RunState M) → IsStranded s t → IsStranded s (fire queued m t)
    unfolding fire
    fire-IsStranded m t h = of_flag t.enabled
      where
        added : IsStranded s (record t {
          queue = t.queue ++ (m ∷ []);
          accepted = t.accepted ++ (m ∷ []);
          pumping = start_pump t.pumping;
        })
        added = record {
          stopped = ap start_pump h.stopped;
          begun = h.begun;
          drained = h.drained;
          later = h.later ++ (m ∷ []);
          queue = ap (λ l. l ++ (m ∷ [])) h.queue ∙ append_assoc s.queue h.later (m ∷ []);
          accepted = ap (λ l. l ++ (m ∷ [])) h.accepted ∙ append_assoc s.accepted h.later (m ∷ []);
        }

        same : (t : RunState M) → IsStranded s t → IsStranded s (emit_skipped m "queue full" t)
        same t h = record {
          stopped = h.stopped;
          begun = h.begun;
          drained = h.drained;
          later = h.later;
          queue = h.queue;
          accepted = h.accepted;
        }

        of_room :
            (b : Bool)
            → IsStranded s (
                if b
                then record t {
                  queue = t.queue ++ (m ∷ []);
                  accepted = t.accepted ++ (m ∷ []);
                  pumping = start_pump t.pumping;
                }
                else emit_skipped m "queue full" t)
        of_room true = added
        of_room false = same t h

        of_flag : (b : Bool) → IsStranded s (if b then fire_mode queued m t else t)
        of_flag true = of_room (ltb (length t.queue) t.max_queued)
        of_flag false = h

    Step-IsStranded : {t u : RunState M} → Step queued t u → IsStranded s t → IsStranded s u
    unfolding fire finish_run
    Step-IsStranded {t = t} (fires m) h = fire-IsStranded m t h
    Step-IsStranded (finishes xs r ys e) h = record {
      stopped = h.stopped;
      begun = h.begun;
      drained = h.drained;
      later = h.later;
      queue = h.queue;
      accepted = h.accepted;
    }
    Step-IsStranded (takes m rest w e) h = cc (sym h.stopped ∙ w)
    Step-IsStranded (returns m e) h = cc (sym h.stopped ∙ e)
    Step-IsStranded (stops w) h = cc (sym h.stopped ∙ w)
    Step-IsStranded (drains m rest w e) h = cc (sym h.stopped ∙ w)
    Step-IsStranded (ends w e) h = cc (sym h.stopped ∙ w)
    Step-IsStranded (enables b) h = record {
      stopped = h.stopped;
      begun = h.begun;
      drained = h.drained;
      later = h.later;
      queue = h.queue;
      accepted = h.accepted;
    }

  -- In the mode queued, once the pump has ended, no later step begins a match or drains one: what is
  -- accepted stays in the queue, behind what was there.
  pub Steps-IsStranded : (s t : RunState M) → s.pumping ≡ ended → Steps queued s t → IsStranded s t
  Steps-IsStranded s s' h here = record {
    stopped = h;
    begun = refl;
    drained = refl;
    later = [];
    queue = sym (append-nil s.queue);
    accepted = sym (append-nil s.accepted);
  }
  Steps-IsStranded s t h (next run step) = Step-IsStranded s step (Steps-IsStranded s _ h run)
