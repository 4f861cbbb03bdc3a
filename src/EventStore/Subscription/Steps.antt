-- ===== src/EventStore/Subscription/Steps.antt =====
-- The steps that the goroutines may take, in any order.
use gohome.Prelude.{ℕ, suc, ◌≤◌, ◌≡◌, true, List, [], ◌∷◌, ◌++◌, length}
use gohome.EventStore.Event.{Event}
use gohome.EventStore.Store.Outcome.{IsNumbered}
use gohome.EventStore.Subscription.{
  catching_up, Feed, has_room, catchup_turn, catchup_send, tailer_query, dispatch_row, receive,
  close, publish_append, publish_batch,
}

pub data Step {P : Type 0} (s : Feed P) : Feed P → Type 0 where
  -- an append gives its rows the positions that follow
  commit :
      (rows : List (Event P))
      → IsNumbered (suc (length s.log)) rows
      → Step s (record s { log = s.log ++ rows })
  publish_one : (pos : ℕ) → pos ≤ length s.log → Step s (publish_append pos s)
  publish_last : (pos : ℕ) → pos ≤ length s.log → Step s (publish_batch pos s)
  -- a target is a latest position, perhaps of an earlier time
  turn : (target : ℕ) → target ≤ s.peak → s.phase ≡ catching_up [] → Step s (catchup_turn target s)
  send :
      (e : Event P) (es : List (Event P))
      → s.phase ≡ catching_up (e ∷ es)
      → has_room s ≡ true
      → Step s (catchup_send e es s)
  tail : (target : ℕ) → target ≤ s.peak → s.batch ≡ [] → Step s (tailer_query target s)
  deliver : (e : Event P) (es : List (Event P)) → s.batch ≡ e ∷ es → Step s (dispatch_row e es s)
  consume : (e : Event P) (es : List (Event P)) → s.channel ≡ e ∷ es → Step s (receive e es s)
  hang_up : Step s (close s)

pub data Steps {P : Type 0} (s : Feed P) : Feed P → Type 0 where
  here : Steps s s
  next : {t u : Feed P} → Steps s t → Step t u → Steps s u

-- no batch sets the latest position back
abbrev pub IsForwardStep : {P : Type 0} {s t : Feed P} → Step s t → Type 0
IsForwardStep (commit rows h) = Unit
IsForwardStep (publish_one pos h) = Unit
IsForwardStep {s = s} (publish_last pos h) = s.latest_position ≤ pos
IsForwardStep (turn target h idle) = Unit
IsForwardStep (send e es h room) = Unit
IsForwardStep (tail target h idle) = Unit
IsForwardStep (deliver e es h) = Unit
IsForwardStep (consume e es h) = Unit
IsForwardStep hang_up = Unit

abbrev pub IsForward : {P : Type 0} {s t : Feed P} → Steps s t → Type 0
IsForward here = Unit
IsForward (next run step) = IsForward run × IsForwardStep step
