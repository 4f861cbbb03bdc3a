-- ===== src/Automation/Trigger/Holds.antt =====
-- The hold timers of a state trigger, after any events and timers.
use gohome.Prelude.{
  String, ◌≡◌, refl, ap, ◌∙◌, subst, Bool, true, false, List, [], ◌∷◌, ◌++◌, none, some, lookup,
  insert, erase, lookup-insert, lookup-erase, or_zero, eqb, string_eq, eq_iff, eq_refl, ◌==◌,
  if◌then◌else◌, Bool-cases, inl, inr,
}
use gohome.EventStore.Event.{contains_string}
use gohome.Automation.Trigger.{
  Event, StateChangeMatcher, match_of, extract_state_string, fits, observe, react, on_state_changed,
  timer_fires,
}

-- what happens to a matcher: an event, or the timer of an entity
pub data Input : Type 0 where
  saw : Event → Input
  expired : String → Input

abbrev pub handle : Input → StateChangeMatcher → StateChangeMatcher
handle (saw ev) m = (on_state_changed ev m).0
handle (expired entity) m = (timer_fires entity m).0

abbrev pub handle_all : List Input → StateChangeMatcher → StateChangeMatcher
handle_all [] m = m
handle_all (i ∷ is) m = handle_all is (handle i m)

abbrev pub about : Input → String
about (saw ev) = ev.entity
about (expired entity) = entity

-- the state that an entity reported last
abbrev pub reported : String → String → List Input → String
reported x old [] = old
reported x old (saw ev ∷ is) =
    reported x (if ev.entity == x then extract_state_string ev.payload else old) is
reported x old (expired entity ∷ is) = reported x old is

-- none of the inputs is about the entity
abbrev pub AllOthers : String → List Input → Type 0
AllOthers x [] = Unit
AllOthers x (i ∷ is) = ((about i == x) ≡ false) × AllOthers x is

-- what a matcher keeps of its configuration, one that holds its matches
record IsHolding (c m : StateChangeMatcher) : Type 0 where
  automation_id : m.automation_id ≡ c.automation_id
  entities : m.entities ≡ c.entities
  from : m.from ≡ c.from
  to : m.to ≡ c.to
  for_dur : eqb m.for_dur 0 ≡ false
  has_deliver : m.has_deliver ≡ true

on_state_changed-IsHolding :
    (c m : StateChangeMatcher) (ev : Event) → IsHolding c m → IsHolding c (on_state_changed ev m).0
unfolding on_state_changed
on_state_changed-IsHolding c m ev h =
    of_tests (contains_string m.entities ev.entity)
      (fits m (or_zero "" (lookup ev.entity m.last)) (extract_state_string ev.payload))
      (eqb m.for_dur 0) m.has_deliver
  where
    seen : IsHolding c (observe ev m)
    seen = record {
      automation_id = h.automation_id;
      entities = h.entities;
      from = h.from;
      to = h.to;
      for_dur = h.for_dur;
      has_deliver = h.has_deliver;
    }

    of_tests : (a b d e : Bool) → IsHolding c (react a b d e ev m).0
    of_tests false b d e = h
    of_tests true false d e = seen
    of_tests true true true e = seen
    of_tests true true false false = seen
    of_tests true true false true = record {
      automation_id = h.automation_id;
      entities = h.entities;
      from = h.from;
      to = h.to;
      for_dur = h.for_dur;
      has_deliver = h.has_deliver;
    }

handle-IsHolding : (c m : StateChangeMatcher) (i : Input) → IsHolding c m → IsHolding c (handle i m)
unfolding timer_fires
handle-IsHolding c m (saw ev) h = on_state_changed-IsHolding c m ev h
handle-IsHolding c m (expired entity) h = record {
  automation_id = h.automation_id;
  entities = h.entities;
  from = h.from;
  to = h.to;
  for_dur = h.for_dur;
  has_deliver = h.has_deliver;
}

handle_all-IsHolding :
    (c m : StateChangeMatcher) (is : List Input) → IsHolding c m → IsHolding c (handle_all is m)
handle_all-IsHolding c m [] h = h
handle_all-IsHolding c m (i ∷ is) h =
    handle_all-IsHolding c (handle i m) is (handle-IsHolding c m i h)

-- an event about another entity
others_kept :
    (x : String) (ev : Event) (m : StateChangeMatcher)
    → (ev.entity == x) ≡ false
    → (lookup x (on_state_changed ev m).0.timers ≡ lookup x m.timers)
      × (lookup x (on_state_changed ev m).0.last ≡ lookup x m.last)
unfolding on_state_changed
others_kept x ev m apart =
    of_tests (contains_string m.entities ev.entity)
      (fits m (or_zero "" (lookup ev.entity m.last)) (extract_state_string ev.payload))
      (eqb m.for_dur 0) m.has_deliver
  where
    erased : lookup x (erase ev.entity m.timers) ≡ lookup x m.timers
    erased = lookup-erase ev.entity x m.timers ∙ rw apart refl

    last : lookup x (insert ev.entity (extract_state_string ev.payload) m.last) ≡ lookup x m.last
    last = lookup-insert ev.entity x (extract_state_string ev.payload) m.last ∙ rw apart refl

    of_tests :
        (a b d e : Bool)
        → (let r = (react a b d e ev m).0 in
            (lookup x r.timers ≡ lookup x m.timers) × (lookup x r.last ≡ lookup x m.last))
    of_tests false b d e = (refl, refl)
    of_tests true false d e = (erased, last)
    of_tests true true true e = (erased, last)
    of_tests true true false false = (erased, last)
    of_tests true true false true = (
      lookup-insert ev.entity x (match_of m ev) (erase ev.entity m.timers) ∙ rw apart erased,
      last,
    )

-- an event about the entity
own_event :
    (ev : Event) (m c : StateChangeMatcher)
    → IsHolding c m
    → contains_string c.entities ev.entity ≡ true
    → (lookup ev.entity (on_state_changed ev m).0.timers ≡ (
        if fits c (or_zero "" (lookup ev.entity m.last)) (extract_state_string ev.payload)
        then some (match_of c ev)
        else none))
      × (lookup ev.entity (on_state_changed ev m).0.last ≡ some (extract_state_string ev.payload))
unfolding on_state_changed
own_event ev m c h known =
    of_tests (contains_string m.entities ev.entity)
      (fits m (or_zero "" (lookup ev.entity m.last)) (extract_state_string ev.payload))
      (eqb m.for_dur 0) m.has_deliver (ap (λ l. contains_string l ev.entity) h.entities ∙ known)
      (same_fit (or_zero "" (lookup ev.entity m.last)) (extract_state_string ev.payload)) h.for_dur
      h.has_deliver
  where
    same_fit : (p n : String) → fits m p n ≡ fits c p n
    same_fit p n = rw (h.from, h.to) refl

    same_match : match_of m ev ≡ match_of c ev
    same_match =
        ap (λ i. record { automation_id = i; trigger_kind = "state_changed"; event = ev })
          h.automation_id

    gone : lookup ev.entity (erase ev.entity m.timers) ≡ none
    gone = lookup-erase ev.entity ev.entity m.timers ∙ rw (eq_refl ev.entity) refl

    last :
        lookup ev.entity (insert ev.entity (extract_state_string ev.payload) m.last)
        ≡ some (extract_state_string ev.payload)
    last =
        lookup-insert ev.entity ev.entity (extract_state_string ev.payload) m.last
        ∙ rw (eq_refl ev.entity) refl

    held :
        lookup ev.entity (insert ev.entity (match_of m ev) (erase ev.entity m.timers))
        ≡ some (match_of c ev)
    held =
        lookup-insert ev.entity ev.entity (match_of m ev) (erase ev.entity m.timers)
        ∙ rw (eq_refl ev.entity) (ap (λ x. some x) same_match)

    of_tests :
        (a b d e : Bool)
        → a ≡ true
        → b ≡ fits c (or_zero "" (lookup ev.entity m.last)) (extract_state_string ev.payload)
        → d ≡ false
        → e ≡ true
        → (let r = (react a b d e ev m).0 in
            (lookup ev.entity r.timers ≡ (
              if fits c (or_zero "" (lookup ev.entity m.last)) (extract_state_string ev.payload)
              then some (match_of c ev)
              else none))
            × (lookup ev.entity r.last ≡ some (extract_state_string ev.payload)))
    of_tests false b d e p q k l = cc
    of_tests true false d e p q k l = (rw (← q) gone, last)
    of_tests true true true e p q k l = cc
    of_tests true true false false p q k l = cc
    of_tests true true false true p q k l = (rw (← q) held, last)

handle_all-append :
    (xs ys : List Input) (m : StateChangeMatcher)
    → handle_all (xs ++ ys) m ≡ handle_all ys (handle_all xs m)
handle_all-append [] ys m = refl
handle_all-append (i ∷ xs) ys m = handle_all-append xs ys (handle i m)

others_all :
    (x : String) (is : List Input) (m : StateChangeMatcher)
    → AllOthers x is
    → lookup x (handle_all is m).timers ≡ lookup x m.timers
unfolding timer_fires
others_all x [] m h = refl
others_all x (saw ev ∷ is) m (h, hs) =
    others_all x is (on_state_changed ev m).0 hs ∙ (others_kept x ev m h).0
others_all x (expired entity ∷ is) m (h, hs) =
    others_all x is (timer_fires entity m).0 hs ∙ lookup-erase entity x m.timers ∙ rw h refl

saw_last :
    (x : String) (ev : Event) (m c : StateChangeMatcher)
    → IsHolding c m
    → contains_string c.entities x ≡ true
    → or_zero "" (lookup x (on_state_changed ev m).0.last)
      ≡ (if ev.entity == x then extract_state_string ev.payload else or_zero "" (lookup x m.last))
saw_last x ev m c h known = elim (Bool-cases (ev.entity == x)) [
  | inl same ↦
      let e : ev.entity ≡ x = (eq_iff ev.entity x).0 same in
      rw same (
        subst
          (λ y.
            or_zero "" (lookup y (on_state_changed ev m).0.last) ≡ extract_state_string ev.payload)
          e (ap (or_zero "") (own_event ev m c h (rw e known)).1))
  | inr apart ↦ rw apart (ap (or_zero "") (others_kept x ev m apart).1)
]

last_reported :
    (x : String) (is : List Input) (m c : StateChangeMatcher)
    → IsHolding c m
    → contains_string c.entities x ≡ true
    → or_zero "" (lookup x (handle_all is m).last) ≡ reported x (or_zero "" (lookup x m.last)) is
unfolding timer_fires
last_reported x [] m c h known = refl
last_reported x (expired entity ∷ is) m c h known =
    last_reported x is (handle (expired entity) m) c (handle-IsHolding c m (expired entity) h) known
last_reported x (saw ev ∷ is) m c h known =
    last_reported x is (handle (saw ev) m) c (handle-IsHolding c m (saw ev) h) known
    ∙ ap (λ o. reported x o is) (saw_last x ev m c h known)

-- A state trigger with a duration and its callback wired, and an entity of it, whose last event is
-- followed by inputs about other entities only: what the timer of the entity delivers, if it fires,
-- is that last event, if the state before it, as the entity reported it, is `from` and the state that
-- it reports is `to` (any state, where these are empty), and else nothing. So an event that
-- reports the same state again drops the hold that the change to it had started, if `from` is set
-- and another state.
pub handle_all-holds :
    (m : StateChangeMatcher) (before others : List Input) (ev : Event)
    → eqb m.for_dur 0 ≡ false
    → m.has_deliver ≡ true
    → contains_string m.entities ev.entity ≡ true
    → AllOthers ev.entity others
    → (timer_fires ev.entity (handle_all (before ++ (saw ev ∷ others)) m)).1 ≡ (
        if fits m
          (reported ev.entity (or_zero "" (lookup ev.entity m.last)) before)
          (extract_state_string ev.payload)
        then some (match_of m ev)
        else none)
unfolding timer_fires
handle_all-holds m before others ev long wired known apart =
    let start : IsHolding m m = record {
      automation_id = refl;
      entities = refl;
      from = refl;
      to = refl;
      for_dur = long;
      has_deliver = wired;
    } in
    let mid = handle_all before m in
    let kept = handle_all-IsHolding m m before start in
    ap (λ r. lookup ev.entity r.timers) (handle_all-append before (saw ev ∷ others) m)
    ∙ others_all ev.entity others (on_state_changed ev mid).0 apart
    ∙ (own_event ev mid m kept known).0
    ∙ ap (λ p. if fits m p (extract_state_string ev.payload) then some (match_of m ev) else none)
        (last_reported ev.entity before m m start known)
