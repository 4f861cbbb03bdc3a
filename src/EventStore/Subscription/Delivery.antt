-- ===== src/EventStore/Subscription/Delivery.antt =====
-- Delivery without a filter.
use gohome.Prelude.{
  ℕ, ◌+◌, ◌≤◌, ◌≡◌, refl, sym, ap, ◌∙◌, true, List, [], ◌∷◌, ◌++◌, take, drop, take-append-drop,
  length-take-short, length, arith,
}
use mathlib.Core.List.{append_assoc}
use gohome.EventStore.Event.{Event, Filter, matches}
use gohome.EventStore.Store.Outcome.{IsNumbered}
use gohome.EventStore.Subscription.{
  higher, publish_append, publish_batch, registered, closed, Feed, subscribe, receive,
}
use gohome.EventStore.Subscription.Steps.{
  Step, commit, publish_one, publish_last, turn, send, tail, deliver, consume, hang_up, Steps, here,
  next, IsForwardStep, IsForward,
}
use gohome.EventStore.Subscription.Running.{IsRunning, commit-IsRunning}
use gohome.EventStore.Subscription.Turns.{in_phase, turn-IsRunning, send-IsRunning, tail-IsRunning}
use gohome.EventStore.Subscription.Dispatches.{deliver-IsRunning}

module _ {P : Type 0} (from : ℕ) where
  -- The events that the subscriber has been sent, whether it has read them yet or not, are the
  -- events of the log from `from` on, up to the last position sent.
  pub record IsDelivered (s : Feed P) : Type 0 where
    pub before : List (Event P)
    pub after : List (Event P)
    pub split : s.log ≡ before ++ ((s.received ++ s.channel) ++ after)
    pub start : length before ≡ from
    pub sent : s.last_sent ≡ from + length (s.received ++ s.channel)
    pub counted : s.delivered ≡ length (s.received ++ s.channel)
    -- and a registered subscriber has been sent all that the tailer has dispatched
    pub complete : s.phase ≡ registered → s.cursor ≤ s.last_sent

  IsRunning-IsDelivered : (s : Feed P) → IsRunning from s → IsDelivered s
  IsRunning-IsDelivered s r = record {
    before = r.before;
    after = r.after;
    split = r.split;
    start = r.start;
    sent = r.sent;
    counted = r.counted;
    complete = r.complete;
  }

  consume-IsRunning :
      (e : Event P) (es : List (Event P)) (s : Feed P)
      → s.channel ≡ e ∷ es
      → IsRunning from s
      → IsRunning from (receive e es s)
  consume-IsRunning e es s h r =
      let moved : (s.received ++ (e ∷ [])) ++ es ≡ s.received ++ s.channel =
        append_assoc s.received (e ∷ []) es ∙ ap (λ l. s.received ++ l) (sym h) in
      record {
        all = r.all;
        numbered = r.numbered;
        latest = r.latest;
        peak = r.peak;
        before = r.before;
        after = r.after;
        split = r.split ∙ ap (λ l. r.before ++ (l ++ r.after)) (sym moved);
        start = r.start;
        sent = r.sent ∙ ap (λ l. from + length l) (sym moved);
        counted = r.counted ∙ ap length (sym moved);
        to_send = r.to_send;
        complete = r.complete;
        tailed = r.tailed;
        untailed = r.untailed;
        tail_split = r.tail_split;
        tail_at = r.tail_at;
        ahead = r.ahead;
      }

  publish-IsRunning :
      (pos peak : ℕ) (s : Feed P)
      → s.latest_position ≤ pos
      → pos ≤ length s.log
      → peak ≡ pos
      → IsRunning from s
      → IsRunning from (record s { latest_position = pos; peak = peak })
  publish-IsRunning pos peak s h k e r = record {
    all = r.all;
    numbered = r.numbered;
    latest = k;
    peak = e;
    before = r.before;
    after = r.after;
    split = r.split;
    start = r.start;
    sent = r.sent;
    counted = r.counted;
    to_send = r.to_send;
    complete = r.complete;
    tailed = r.tailed;
    untailed = r.untailed;
    tail_split = r.tail_split;
    tail_at = r.tail_at;
    ahead = omega (arith, r.ahead, h);
  }

  publish_append-IsRunning :
      (pos : ℕ) (s : Feed P)
      → pos ≤ length s.log
      → IsRunning from s
      → IsRunning from (publish_append pos s)
  publish_append-IsRunning pos s h r =
      publish-IsRunning (higher s.latest_position pos) (higher s.peak pos) s (ground arith)
        (ground (arith, h, r.latest)) (ap (λ n. higher n pos) r.peak) r

  publish_batch-IsRunning :
      (pos : ℕ) (s : Feed P)
      → pos ≤ length s.log
      → s.latest_position ≤ pos
      → IsRunning from s
      → IsRunning from (publish_batch pos s)
  publish_batch-IsRunning pos s h k r =
      publish-IsRunning pos (higher s.peak pos) s k h (let e = r.peak in ground (arith, e, k)) r

  Step-IsRunning :
      {s t : Feed P} (step : Step s t) → IsForwardStep step → IsRunning from s → IsRunning from t
  Step-IsRunning {s = s} (commit rows h) f r = commit-IsRunning from rows s h r
  Step-IsRunning {s = s} (publish_one pos h) f r = publish_append-IsRunning pos s h r
  Step-IsRunning {s = s} (publish_last pos h) f r = publish_batch-IsRunning pos s h f r
  Step-IsRunning {s = s} (turn target h idle) f r =
      turn-IsRunning from target s (omega (arith, h, r.peak)) r
  Step-IsRunning {s = s} (send e es h room) f r = send-IsRunning from e es s h r
  Step-IsRunning {s = s} (tail target h idle) f r =
      tail-IsRunning from target s (omega (arith, h, r.peak)) idle r
  Step-IsRunning {s = s} (deliver e es h) f r = deliver-IsRunning from e es s h r
  Step-IsRunning {s = s} (consume e es h) f r = consume-IsRunning e es s h r
  Step-IsRunning {s = s} hang_up f r = in_phase from closed s r (λ l p. cc) (λ p. cc)

  Steps-IsRunning :
      {s t : Feed P} (run : Steps s t) → IsForward run → IsRunning from s → IsRunning from t
  Steps-IsRunning here f r = r
  Steps-IsRunning (next run step) (fs, f) r = Step-IsRunning step f (Steps-IsRunning run fs r)

  subscribe-IsRunning :
      (filter : Filter) (capacity latest cursor : ℕ)
      (log before after tailed untailed : List (Event P))
      → ((e : Event P) → matches filter e ≡ true)
      → IsNumbered 1 log
      → latest ≤ length log
      → cursor ≤ latest
      → log ≡ before ++ after
      → length before ≡ from
      → log ≡ tailed ++ untailed
      → length tailed ≡ cursor
      → IsRunning from (subscribe filter capacity from latest cursor log)
  subscribe-IsRunning filter capacity latest cursor log before after tailed untailed all numbered h
        k split start tail_split tail_at =
      record {
        all = all;
        numbered = numbered;
        latest = h;
        peak = refl;
        before = before;
        after = after;
        split = split;
        start = start;
        sent = omega arith;
        counted = refl;
        to_send = λ l p. (after, let q : [] ≡ l = cc p in ap (λ x. x ++ after) q);
        complete = λ p. cc;
        tailed = tailed;
        untailed = untailed;
        tail_split = tail_split;
        tail_at = tail_at;
        ahead = omega (arith, k);
      }

  -- A subscriber without a filter starts at a position of the log, with the tailer anywhere up to
  -- the latest position, which has not been higher. After any steps of the appends, of its own
  -- catching up, of the tailer and of its reader, in any order and with any delay between a read of
  -- the latest position and the query that uses it, but where no `AppendBatch` sets the latest
  -- position back: what it has been sent is exactly the events of the log from there to its last
  -- position, each once and in order, be it registered, catching up or closed; and if it is
  -- registered, that includes all that the tailer has dispatched.
  pub Steps-IsDelivered :
      (filter : Filter) (capacity latest cursor : ℕ) (log : List (Event P)) (t : Feed P)
      → ((e : Event P) → matches filter e ≡ true)
      → IsNumbered 1 log
      → latest ≤ length log
      → cursor ≤ latest
      → from ≤ length log
      → (run : Steps (subscribe filter capacity from latest cursor log) t) → IsForward run
      → IsDelivered t
  Steps-IsDelivered filter capacity latest cursor log t all numbered h k j run forward =
      IsRunning-IsDelivered t (
        Steps-IsRunning run forward (
          subscribe-IsRunning filter capacity latest cursor log (take from log) (drop from log)
            (take cursor log) (drop cursor log) all numbered h k (take-append-drop from log)
            (length-take-short from log j) (take-append-drop cursor log)
            (length-take-short cursor log (omega (arith, h, k)))))
