-- ===== src/Automation/Trigger.antt =====
-- internal/automation/trigger: state.go, event.go and the registry of trigger.go. An event is what
-- the matchers read of it. A timer is the match that it will deliver; that it fires is an operation
-- of its own, and a timer that has been stopped does not fire.
pub mod Holds
use gohome.Prelude.{
  ℕ, String, Bool, true, false, not, ◌&&◌, ◌||◌, List, [], ◌∷◌, ◌++◌, Option, none, some, lookup,
  insert, erase, or_zero, any, keep_if, is_empty, eqb, string_eq, ◌==◌, if◌then◌else◌,
}
use gohome.EventStore.Event.{contains_string}

-- the attributes of a StateChanged payload, as far as a trigger reads them
pub data Attributes : Type 0 where
  light switch_device : Bool → Attributes
  other_attributes : Attributes

pub record DriverEvent : Type 0 where
  pub detail : String
  pub driver_instance_id : String
  pub kind : String

pub data Payload : Type 0 where
  state_changed : Option Attributes → Payload
  driver_event : DriverEvent → Payload
  webhook_received : String → Payload
  other_payload : Payload

pub record Event : Type 0 where
  pub position : ℕ
  pub kind : String
  pub entity : String
  pub payload : Payload

pub record Match : Type 0 where
  pub automation_id : String
  pub trigger_kind : String
  pub event : Event

abbrev pub state_text : Attributes → String
state_text (light on) = if on then "on" else "off"
state_text (switch_device on) = if on then "on" else "off"
state_text other_attributes = ""

abbrev pub extract_state_string : Payload → String
extract_state_string (state_changed none) = ""
extract_state_string (state_changed (some a)) = state_text a
extract_state_string (driver_event d) = ""
extract_state_string (webhook_received slug) = ""
extract_state_string other_payload = ""

pub record StateChangeMatcher : Type 0 where
  pub automation_id : String
  pub entities : List String
  pub from : String
  pub to : String
  pub for_dur : ℕ
  pub has_deliver : Bool
  pub timers : List (String × Match)
  pub last : List (String × String)

abbrev pub match_of : StateChangeMatcher → Event → Match
match_of m ev = record {
  automation_id = m.automation_id;
  trigger_kind = "state_changed";
  event = ev;
}

-- the tests of `from` and `to`
abbrev pub fits : StateChangeMatcher → String → String → Bool
fits m prev new_state =
    not (not (m.from == "") && not (prev == m.from))
    && not (not (m.to == "") && not (new_state == m.to))

-- the bookkeeping of every event about an entity of the matcher: the timer stops
abbrev pub observe : Event → StateChangeMatcher → StateChangeMatcher
observe ev m = record m {
  last = insert ev.entity (extract_state_string ev.payload) m.last;
  timers = erase ev.entity m.timers;
}

-- with whether the entity is one of the matcher's, the change fits, there is no duration to hold,
-- and the callback is wired
abbrev pub react :
    Bool → Bool → Bool → Bool → Event → StateChangeMatcher → StateChangeMatcher × List Match
react false fit immediate wired ev m = (m, [])
react true false immediate wired ev m = (observe ev m, [])
react true true true wired ev m = (observe ev m, match_of m ev ∷ [])
react true true false false ev m = (observe ev m, [])
react true true false true ev m =
    (record (observe ev m) { timers = insert ev.entity (match_of m ev) (observe ev m).timers }, [])

-- The matcher after an event, and what it emits.
unfoldable pub on_state_changed : Event → StateChangeMatcher → StateChangeMatcher × List Match
unfolding contains_string
on_state_changed ev m =
    react (contains_string m.entities ev.entity)
      (fits m (or_zero "" (lookup ev.entity m.last)) (extract_state_string ev.payload))
      (eqb m.for_dur 0) m.has_deliver ev m

-- the function of `time.AfterFunc`: what is delivered, if a timer was set
unfoldable pub timer_fires : String → StateChangeMatcher → StateChangeMatcher × Option Match
timer_fires entity m = (record m { timers = erase entity m.timers }, lookup entity m.timers)

unfoldable pub stop : StateChangeMatcher → StateChangeMatcher
stop m = record m { timers = [] }

pub record EventMatcher : Type 0 where
  pub automation_id : String
  pub kind : String
  pub data_filter : List (String × String)

abbrev pub wants : Option String → String → Bool
wants none value = true
wants (some want) value = value == want

unfoldable pub on_event : Event → EventMatcher → Option Match
on_event ev m =
    let hit : Match = record {
      automation_id = m.automation_id;
      trigger_kind = "event";
      event = ev;
    } in
    if not (ev.kind == m.kind)
    then none
    else if is_empty m.data_filter
    then some hit
    else elim ev.payload [
      | driver_event de ↦
          if wants (lookup "detail" m.data_filter) de.detail
            && (wants (lookup "driver_instance_id" m.data_filter) de.driver_instance_id
                && wants (lookup "kind" m.data_filter) de.kind)
          then some hit
          else none
      | state_changed a ↦ none
      | webhook_received slug ↦ none
      | other_payload ↦ none
    ]

abbrev pub allowed_event_data_key : String → Bool
allowed_event_data_key k = k == "detail" || (k == "driver_instance_id" || k == "kind")

-- the key that is refused, if any
abbrev pub validate_event_data_keys : List (String × String) → Option String
validate_event_data_keys [] = none
validate_event_data_keys ((k, v) ∷ rest) =
    let later = validate_event_data_keys rest in if allowed_event_data_key k then later else some k

pub record WebhookMatcher : Type 0 where
  pub automation_id : String
  pub path : String

unfoldable pub on_webhook : Event → WebhookMatcher → Option Match
on_webhook ev w = elim ev.payload [
  | webhook_received slug ↦
      if not (slug == w.path)
      then none
      else some (record { automation_id = w.automation_id; trigger_kind = "webhook"; event = ev })
  | state_changed a ↦ none
  | driver_event de ↦ none
  | other_payload ↦ none
]
