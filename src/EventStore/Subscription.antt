-- ===== src/EventStore/Subscription.antt =====
-- internal/eventstore/subscribe.go and tailer.go: one subscriber and the tailer, on the log that
-- appends make. A feed is what the goroutines share, each step one of them between two waits: an
-- append commits its rows and later publishes their position; a goroutine reads that position and
-- queries later, so that a target may be out of date. Other subscribers have feeds of their own.
-- `dispatch` copies the list of subscribers before it sends; a subscriber that is added after the
-- copy has an event of it behind its last position.
pub mod Steps
pub mod Running
pub mod Turns
pub mod Dispatches
pub mod Delivery
pub mod Gaps
pub mod Setback
use gohome.Prelude.{
  ℕ, suc, Bool, true, false, not, List, [], ◌∷◌, ◌++◌, none, ltb, leb, length, is_empty,
  if◌then◌else◌,
}
use gohome.EventStore.Event.{Event, Filter, matches}
use gohome.EventStore.Query.{QueryOptions, query}

-- A subscriber catches up, with the rows of its query that are still to be sent, or it is
-- registered, or closed.
pub data Phase (P : Type 0) : Type 0 where
  catching_up : List (Event P) → Phase P
  registered closed : Phase P

-- `peak` is the highest that the latest position has been; `cursor` is the tailer's, and `batch` the rows of its query that are still to be dispatched
pub record Feed (P : Type 0) : Type 0 where
  pub log : List (Event P)
  pub latest_position : ℕ
  pub peak : ℕ
  pub cursor : ℕ
  pub batch : List (Event P)
  pub filter : Filter
  pub capacity : ℕ
  pub phase : Phase P
  pub last_sent : ℕ
  pub channel : List (Event P)
  pub received : List (Event P)
  pub delivered : ℕ
  pub dropped : ℕ

abbrev pub no_filter : Filter
no_filter = record {
  kinds = [];
  entities = [];
  sources = [];
  correlation_ids = [];
  min_ts = none;
  max_ts = none;
}

abbrev pub higher : ℕ → ℕ → ℕ
higher a b = if ltb a b then b else a

module _ {P : Type 0} where
  -- the subscriber and the tailer at the start, after events that are in the log
  abbrev pub subscribe : Filter → ℕ → ℕ → ℕ → ℕ → List (Event P) → Feed P
  subscribe filter capacity from latest cursor log = record {
    log = log;
    latest_position = latest;
    peak = latest;
    cursor = cursor;
    batch = [];
    filter = filter;
    capacity = capacity;
    phase = catching_up [];
    last_sent = from;
    channel = [];
    received = [];
    delivered = 0;
    dropped = 0;
  }

  -- `Append` raises the latest position to that of its row, if it is lower
  abbrev pub publish_append : ℕ → Feed P → Feed P
  publish_append pos s = record s {
    latest_position = higher s.latest_position pos;
    peak = higher s.peak pos;
  }

  -- `AppendBatch` sets it to that of its last row, also where it is higher already
  abbrev pub publish_batch : ℕ → Feed P → Feed P
  publish_batch pos s = record s { latest_position = pos; peak = higher s.peak pos }

  abbrev pub has_room : Feed P → Bool
  has_room s = ltb (length s.channel) s.capacity

  -- an event in the channel
  abbrev pub sent_on : Event P → Feed P → Feed P
  sent_on e s = record s {
    channel = s.channel ++ (e ∷ []);
    last_sent = e.position;
    delivered = suc s.delivered;
  }

  -- the rows of a query of `catchupAndRegister`: without any the last position is set to the target
  abbrev pub catch_up_with : ℕ → List (Event P) → Feed P → Feed P
  catch_up_with target [] s = record s { last_sent = target }
  catch_up_with target (e ∷ es) s = record s { phase = catching_up (e ∷ es) }

  -- a turn of the loop of `catchupAndRegister`, with the target that it has read
  unfoldable pub catchup_turn : ℕ → Feed P → Feed P
  unfolding query
  catchup_turn target s =
      let rows =
        query
          (record {
            from_position = s.last_sent;
            to_position = target;
            filter = s.filter;
            limit = 1000;
          })
          s.log in
      if leb target s.last_sent
      then if ltb s.last_sent s.latest_position then s else record s { phase = registered }
      else catch_up_with target rows s

  -- `blockingSend` of the next row, which waits for room
  abbrev pub catchup_send : Event P → List (Event P) → Feed P → Feed P
  catchup_send e es s = record (sent_on e s) { phase = catching_up es }

  -- the tailer's query, with the target that it has read
  unfoldable pub tailer_query : ℕ → Feed P → Feed P
  unfolding query
  tailer_query target s = if leb target s.cursor then s else record s {
    batch =
        query
          (record {
            from_position = s.cursor;
            to_position = target;
            filter = no_filter;
            limit = 1000;
          })
          s.log;
  }

  -- `dispatch` to a subscriber in the list, with room in its channel or not
  abbrev pub try_send : Bool → Event P → Feed P → Feed P
  try_send true e s = sent_on e s
  try_send false e s = record s { phase = closed; dropped = suc s.dropped }

  abbrev pub dispatch_to : Phase P → Event P → Feed P → Feed P
  dispatch_to (catching_up es) e s = s
  dispatch_to closed e s = s
  dispatch_to registered e s =
      if not (matches s.filter e)
      then s
      else if leb e.position s.last_sent
      then s
      else try_send (has_room s) e s

  -- the tailer's next row
  unfoldable pub dispatch_row : Event P → List (Event P) → Feed P → Feed P
  unfolding matches
  dispatch_row e es s = record (dispatch_to s.phase e s) { cursor = e.position; batch = es }

  abbrev pub receive : Event P → List (Event P) → Feed P → Feed P
  receive e es s = record s { channel = es; received = s.received ++ (e ∷ []) }

  abbrev pub close : Feed P → Feed P
  close s = record s { phase = closed }
