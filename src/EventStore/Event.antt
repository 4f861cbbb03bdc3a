-- ===== src/EventStore/Event.antt =====
-- internal/eventstore/event.go and filter.go. The zero time and the nil UUID are `none`; times are
-- numbers of nanoseconds, and UUIDs texts. The payload is a type of the caller.
use gohome.Prelude.{
  ℕ, String, Bool, true, false, not, ◌&&◌, List, [], ◌∷◌, Option, none, some, ltb, is_empty,
  string_eq, ◌==◌, if◌then◌else◌,
}

pub record Event (P : Type 0) : Type 0 where
  pub position : ℕ
  pub timestamp : Option ℕ
  pub kind : String
  pub entity : String
  pub source : String
  pub correlation_id : Option String
  pub cause_position : ℕ
  pub payload : Option P

pub record Filter : Type 0 where
  pub kinds : List String
  pub entities : List String
  pub sources : List String
  pub correlation_ids : List (Option String)
  pub min_ts : Option ℕ
  pub max_ts : Option ℕ

unfoldable pub contains_string : List String → String → Bool
contains_string [] needle = false
contains_string (s ∷ haystack) needle =
    let rest = contains_string haystack needle in if s == needle then true else rest

abbrev pub same_uuid : Option String → Option String → Bool
same_uuid none none = true
same_uuid (some u) (some v) = u == v
same_uuid _ _ = false

unfoldable pub contains_uuid : List (Option String) → Option String → Bool
contains_uuid [] needle = false
contains_uuid (u ∷ haystack) needle =
    let rest = contains_uuid haystack needle in if same_uuid u needle then true else rest

-- `a.Before(b)`; the zero time is before all others
abbrev pub is_before : Option ℕ → Option ℕ → Bool
is_before none none = false
is_before none (some b) = true
is_before (some a) none = false
is_before (some a) (some b) = ltb a b

abbrev pub is_zero : Option ℕ → Bool
is_zero none = true
is_zero (some t) = false

unfoldable pub matches : {P : Type 0} → Filter → Event P → Bool
unfolding contains_string contains_uuid
matches f e =
    if not (is_empty f.kinds) && not (contains_string f.kinds e.kind)
    then false
    else if not (is_empty f.entities) && not (contains_string f.entities e.entity)
    then false
    else if not (is_empty f.sources) && not (contains_string f.sources e.source)
    then false
    else if not (is_empty f.correlation_ids)
        && not (contains_uuid f.correlation_ids e.correlation_id)
    then false
    else if not (is_zero f.min_ts) && is_before e.timestamp f.min_ts
    then false
    else if not (is_zero f.max_ts) && is_before f.max_ts e.timestamp
    then false
    else true
