-- ===== src/EventStore/Query.antt =====
-- internal/eventstore/query.go: the rows of a range, and those of them that match a filter. The
-- rows of the log stand in the order of their positions.
pub mod Ranges
use gohome.Prelude.{
  ℕ, String, Bool, true, ◌&&◌, ◌||◌, List, ltb, leb, eqb, keep_if, take, if◌then◌else◌,
}
use gohome.EventStore.Event.{Event, Filter, matches}
use gohome.EventStore.Store.{contains_text}

-- `Limit` is a signed number that is not positive as 0
pub record QueryOptions : Type 0 where
  pub from_position : ℕ
  pub to_position : ℕ
  pub filter : Filter
  pub limit : ℕ

-- the condition of the statement on a position
abbrev pub in_range : ℕ → ℕ → ℕ → Bool
in_range from to position = ltb from position && (eqb to 0 || leb position to)

abbrev pub select_rows : {P : Type 0} → ℕ → ℕ → ℕ → List (Event P) → List (Event P)
select_rows from to limit log = take limit (keep_if (λ e. in_range from to e.position) log)

-- The limit is that of the statement: it counts the rows that the filter drops, too.
unfoldable pub query : {P : Type 0} → QueryOptions → List (Event P) → List (Event P)
unfolding matches
query q log =
    keep_if (matches q.filter)
      (select_rows q.from_position q.to_position (if eqb q.limit 0 then 1000 else q.limit) log)

unfoldable pub query_by_source_substring : {P : Type 0} → String → List (Event P) → List (Event P)
unfolding contains_text
query_by_source_substring substring log = keep_if (λ e. contains_text e.source substring) log
