-- ===== src/EventStore/Subscription/Setback.antt =====
-- A batch that sets the latest position back, and a subscriber that catches up.
use gohome.Prelude.{ℕ, ◌≤◌, ◌<◌, ◌≢◌, List, ◌++◌, ◌⊎◌, Memᴰ}
use mathlib.Core.List.Memᴰ
use gohome.EventStore.Event.{Event}
use gohome.EventStore.Subscription.{catching_up, Feed}
use gohome.EventStore.Subscription.Steps.{Steps}

module _ {P : Type 0} where
  -- the subscriber has caught up, and the tailer is past `bound`
  record IsBehind (bound : ℕ) (old : List (Event P)) (s : Feed P) : Type 0 where
    sent : (e : Event P) → Memᴰ e (s.received ++ s.channel) → Memᴰ e old ⊎ (bound < e.position)
    done : (es : List (Event P)) → s.phase ≢ catching_up es
    tailed : bound ≤ s.cursor
    rows : (e : Event P) → Memᴰ e s.batch → bound < e.position
