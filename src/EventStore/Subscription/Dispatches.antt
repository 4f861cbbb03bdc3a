-- ===== src/EventStore/Subscription/Dispatches.antt =====
-- A row that the tailer dispatches.
use gohome.Prelude.{
  ℕ, suc, ◌≤◌, ◌<◌, ◌≡◌, refl, sym, ap, ◌∙◌, subst, Bool, true, false, List, [], ◌∷◌, ◌++◌, leb,
  length, length-append, arith, if◌then◌else◌,
}
use mathlib.Core.List.{append_assoc}
use gohome.EventStore.Event.{Event}
use gohome.EventStore.Store.Outcome.{IsNumbered}
use gohome.EventStore.Query.Ranges.{IsNumbered-after}
use gohome.EventStore.Subscription.{
  Phase, catching_up, registered, closed, Feed, has_room, try_send, dispatch_to, dispatch_row,
}
use gohome.EventStore.Subscription.Steps.{}
use gohome.EventStore.Subscription.Running.{
  same_rest, IsRunning, sent_before, sent_split, sent_on-IsRunning,
}

module _ {P : Type 0} (from : ℕ) where
  -- the tailer goes on by one row, whatever becomes of the subscriber
  tailer_on :
      (e : Event P) (es : List (Event P)) (s : Feed P) (phase : Phase P) (dropped : ℕ)
      (r : IsRunning from s)
      → s.batch ≡ e ∷ es
      → e.position ≡ suc s.cursor
      → ((l : List (Event P))
          → phase ≡ catching_up l
          → (more : List (Event P)) × (r.after ≡ l ++ more))
      → (phase ≡ registered → suc s.cursor ≤ s.last_sent)
      → IsRunning from
          (record s { phase = phase; dropped = dropped; cursor = e.position; batch = es })
  tailer_on e es s phase dropped r h at_next k c = record {
    all = r.all;
    numbered = r.numbered;
    latest = r.latest;
    peak = r.peak;
    before = r.before;
    after = r.after;
    split = r.split;
    start = r.start;
    sent = r.sent;
    counted = r.counted;
    to_send = k;
    complete = λ p. omega (arith, at_next, c p);
    tailed = r.tailed ++ (e ∷ []);
    untailed = r.untailed;
    tail_split =
        r.tail_split
        ∙ ap (λ l. r.tailed ++ (l ++ r.untailed)) h
        ∙ sym (append_assoc r.tailed (e ∷ []) (es ++ r.untailed));
    tail_at = omega (arith, length-append r.tailed (e ∷ []), r.tail_at, at_next);
    ahead = omega (arith, r.ahead, ap length h, at_next);
  }

  pub deliver-IsRunning :
      (e : Event P) (es : List (Event P)) (s : Feed P)
      → s.batch ≡ e ∷ es
      → IsRunning from s
      → IsRunning from (dispatch_row e es s)
  unfolding dispatch_row
  deliver-IsRunning e es s h r = of_phase s.phase refl
    where
      tail_split : s.log ≡ r.tailed ++ (e ∷ (es ++ r.untailed))
      tail_split = r.tail_split ∙ ap (λ l. r.tailed ++ (l ++ r.untailed)) h

      at_next : e.position ≡ suc s.cursor
      at_next =
          (IsNumbered-after 1 (suc s.cursor) r.tailed _ (subst (IsNumbered 1) tail_split r.numbered)
            (omega (arith, r.tail_at))).0

      -- an event past the last one sent is the next one to send
      is_next : s.phase ≡ registered → s.last_sent < e.position → r.after ≡ e ∷ (es ++ r.untailed)
      is_next p k =
          same_rest (r.before ++ (s.received ++ s.channel)) r.after r.tailed
            (e ∷ (es ++ r.untailed)) (sym (sent_split from s r) ∙ tail_split)
            (omega (arith, sent_before from s r, r.tail_at, at_next, k, r.complete p))

      of_room :
          (room : Bool)
          → s.phase ≡ registered
          → s.last_sent < e.position
          → IsRunning from (record (try_send room e s) { cursor = e.position; batch = es })
      of_room true p k =
          sent_on-IsRunning from e (es ++ r.untailed) s s.phase e.position es (r.tailed ++ (e ∷ []))
            r.untailed r (is_next p k) (λ l q. cc (sym p ∙ q))
            (λ q. omega (arith, at_next, r.complete p))
            (tail_split ∙ sym (append_assoc r.tailed (e ∷ []) (es ++ r.untailed)))
            (omega (arith, length-append r.tailed (e ∷ []), r.tail_at, at_next))
            (omega (arith, r.ahead, ap length h, at_next))
      of_room false p k = tailer_on e es s closed (suc s.dropped) r h at_next (λ l q. cc) (λ q. cc)

      of_phase :
          (phase : Phase P)
          → s.phase ≡ phase
          → IsRunning from (record (dispatch_to phase e s) { cursor = e.position; batch = es })
      of_phase (catching_up l) p =
          tailer_on e es s s.phase s.dropped r h at_next r.to_send (λ q. cc (sym p ∙ q))
      of_phase closed p =
          tailer_on e es s s.phase s.dropped r h at_next r.to_send (λ q. cc (sym p ∙ q))
      of_phase registered p = rw (r.all e) (of_test (leb e.position s.last_sent) refl)
        where
          of_test :
              (b : Bool)
              → leb e.position s.last_sent ≡ b
              → IsRunning from (record (if b then s else try_send (has_room s) e s) {
                cursor = e.position;
                batch = es;
              })
          of_test true q = tailer_on e es s s.phase s.dropped r h at_next r.to_send (λ g.
              let k : e.position ≤ s.last_sent = ground (arith, q) in omega (arith, at_next, k))
          of_test false q = of_room (has_room s) p (ground (arith, q))
