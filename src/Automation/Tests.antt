-- ===== src/Automation/Tests.antt =====
-- Runs of internal/automation on small inputs, and the theorems at such inputs.
use gohome.Prelude.{
  ℕ, ◌+◌, ◌*◌, String, ◌≡◌, refl, Bool, true, false, List, [], ◌∷◌, Option, none, some, Memᴰ, ltb,
  arith, if◌then◌else◌, string_eq, ◌==◌, ◌<◌, inl, inr,
}
use mathlib.Core.List.Memᴰ
use gohome.EventStore.Event.{contains_string}
use gohome.Automation.Condition.{verdict, Now, TimeCondition, parse_hm, evaluate_time}
use gohome.Automation.Condition.Windows.{since, evaluate_time-since}
use gohome.Automation.Mode.{
  queued, restart, RunState, new_run_state, fire, pump, pumped, stop_pump, end_pump, fires, here,
  next,
}
use gohome.Automation.Mode.Limits.{IsLimited, Steps-IsLimited}
use gohome.Automation.Mode.Stranded.{IsStranded, Steps-IsStranded}
use gohome.Automation.Trigger.{
  Event, StateChangeMatcher, light, state_changed, match_of, fits, on_state_changed, timer_fires,
}
use gohome.Automation.Trigger.Holds.{saw, reported, handle_all, handle_all-holds}
use gohome.Automation.Reload.{Automation, reload, new_engine}
use gohome.Automation.Reload.Stale.{contained, reload-stale}

-- a scan that knows two times of the day
abbrev scan_times : String → Option (ℕ × ℕ)
scan_times s = if s == "22:00" then some (22, 0) else if s == "06:00" then some (6, 0) else none

abbrev at_night : TimeCondition
at_night = record { after = "22:00"; before = "06:00"; weekdays = [] }

abbrev half_past_one : Now
half_past_one = record { weekday = 3; hour = 1; minute = 30 }

night_run : evaluate_time (λ s. s) scan_times half_past_one at_night ≡ verdict true
unfolding evaluate_time
night_run = refl

bounds_in_day : (parse_hm scan_times "22:00" < 1440) × (parse_hm scan_times "06:00" < 1440)
unfolding parse_hm
bounds_in_day = (omega arith, omega arith)

evaluate_time-since_example :
    evaluate_time (λ s. s) scan_times half_past_one at_night
    ≡ verdict (
        ltb
          (since (parse_hm scan_times "22:00") (1 * 60 + 30))
          (since (parse_hm scan_times "22:00") (parse_hm scan_times "06:00")))
evaluate_time-since_example =
    evaluate_time-since (λ s. s) scan_times half_past_one at_night refl refl refl bounds_in_day.0
      bounds_in_day.1 (omega arith) (omega arith)

abbrev restarted_twice : RunState String
restarted_twice = fire restart "door" (fire restart "hall" (new_run_state true 2))

Steps-IsLimited_example : IsLimited restart restarted_twice
Steps-IsLimited_example =
    Steps-IsLimited restart true 2 restarted_twice (next (next here (fires "hall")) (fires "door"))

-- a manual run starts the pump with a context that is done once it has run
abbrev pump_ended : RunState String
pump_ended =
    end_pump (stop_pump (pumped (pump "hall" [] (fire queued "hall" (new_run_state true 2)))))

Steps-IsStranded_example : IsStranded pump_ended (fire queued "door" pump_ended)
unfolding fire
Steps-IsStranded_example =
    Steps-IsStranded pump_ended (fire queued "door" pump_ended) refl (next here (fires "door"))

abbrev lamp_event : ℕ → Bool → Event
lamp_event pos on = record {
  position = pos;
  kind = "state_changed";
  entity = "light.hall";
  payload = state_changed (some (light on));
}

abbrev door_event : Event
door_event = record {
  position = 9;
  kind = "state_changed";
  entity = "lock.door";
  payload = state_changed none;
}

-- fires when the lamp has been off for a while
abbrev lamp_off : StateChangeMatcher
lamp_off = record {
  automation_id = "goodnight";
  entities = "light.hall" ∷ [];
  from = "on";
  to = "off";
  for_dur = 300;
  has_deliver = true;
  timers = [];
  last = [];
}

held_run :
    (timer_fires "light.hall" (
      handle_all
        (saw (lamp_event 1 true) ∷ saw (lamp_event 2 false) ∷ saw door_event ∷ [])
        lamp_off)).1
    ≡ some (match_of lamp_off (lamp_event 2 false))
unfolding timer_fires on_state_changed
held_run = refl

-- the same state again drops the hold
repeated_run :
    (timer_fires "light.hall" (
      handle_all
        (saw (lamp_event 1 true) ∷ saw (lamp_event 2 false) ∷ saw (lamp_event 3 false) ∷ [])
        lamp_off)).1
    ≡ none
unfolding timer_fires on_state_changed
repeated_run = refl

known_lamp : contains_string ("light.hall" ∷ []) "light.hall" ≡ true
unfolding contains_string
known_lamp = refl

handle_all-holds_example :
    (timer_fires "light.hall" (
      handle_all
        (saw (lamp_event 1 true) ∷ saw (lamp_event 2 false) ∷ saw door_event ∷ [])
        lamp_off)).1
    ≡ (if fits lamp_off (reported "light.hall" "" (saw (lamp_event 1 true) ∷ [])) "off"
        then some (match_of lamp_off (lamp_event 2 false))
        else none)
handle_all-holds_example =
    handle_all-holds lamp_off (saw (lamp_event 1 true) ∷ []) (saw door_event ∷ [])
      (lamp_event 2 false) refl refl known_lamp (refl, tt)

abbrev lights_at : List ℕ → String → Automation
lights_at triggers source = record {
  id = "lights";
  triggers = triggers;
  enabled = true;
  source = some source;
}

-- the first matcher is not one of the second version
other_pointer : (m : ℕ) → Memᴰ m (1 ∷ []) → contained m (2 ∷ []) ≡ false
other_pointer m k = elim (Memᴰ.cases_cons k) [
  | inl e ↦ rw e refl
  | inr later ↦ absurd (Memᴰ.not-nil later)
]

reload-stale_example :
    ((reload (some (lights_at (3 ∷ []) "at dawn" ∷ [])) (
        reload
          (some (lights_at (2 ∷ []) "at dusk" ∷ []))
          (new_engine (lights_at (1 ∷ []) "at dusk" ∷ [])))).registry
      ≡ 1 ∷ 3 ∷ [])
    × ((reload (some []) (
          reload
            (some (lights_at (2 ∷ []) "at dusk" ∷ []))
            (new_engine (lights_at (1 ∷ []) "at dusk" ∷ [])))).registry
        ≡ 1 ∷ [])
    × ((reload
          (some (lights_at (3 ∷ []) "at dawn" ∷ []))
          (new_engine (lights_at (1 ∷ []) "at dusk" ∷ []))).registry
        ≡ 3 ∷ [])
reload-stale_example =
    reload-stale (lights_at (1 ∷ []) "at dusk") (lights_at (2 ∷ []) "at dusk")
      (lights_at (3 ∷ []) "at dawn") "at dusk" refl refl refl refl refl other_pointer
