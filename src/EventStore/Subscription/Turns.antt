-- ===== src/EventStore/Subscription/Turns.antt =====
-- The steps of a subscriber that catches up, and the query of the tailer.
use gohome.Prelude.{
  ℕ, ◌+◌, ◌≤◌, ◌≡◌, ap, ◌∙◌, List, [], ◌∷◌, ◌++◌, ltb, leb, length, arith, Bool-cases, inl, inr,
}
use gohome.EventStore.Event.{Event}
use gohome.EventStore.Subscription.{
  Phase, catching_up, registered, Feed, no_filter, catch_up_with, catchup_turn, catchup_send,
  tailer_query,
}
use gohome.EventStore.Subscription.Steps.{}
use gohome.EventStore.Subscription.Running.{
  IsNext, query-IsNext, matches-no_filter, IsRunning, sent_before, sent_split, log_length,
  sent_on-IsRunning,
}

module _ {P : Type 0} (from : ℕ) where
  -- a change of the phase alone
  pub in_phase :
      (phase : Phase P) (s : Feed P) (r : IsRunning from s)
      → ((l : List (Event P))
          → phase ≡ catching_up l
          → (more : List (Event P)) × (r.after ≡ l ++ more))
      → (phase ≡ registered → s.cursor ≤ s.last_sent)
      → IsRunning from (record s { phase = phase })
  in_phase phase s r k c = record {
    all = r.all;
    numbered = r.numbered;
    latest = r.latest;
    peak = r.peak;
    before = r.before;
    after = r.after;
    split = r.split;
    start = r.start;
    sent = r.sent;
    counted = r.counted;
    to_send = k;
    complete = c;
    tailed = r.tailed;
    untailed = r.untailed;
    tail_split = r.tail_split;
    tail_at = r.tail_at;
    ahead = r.ahead;
  }

  catch_up_with-IsRunning :
      (target : ℕ) (rows : List (Event P)) (s : Feed P) (r : IsRunning from s)
      → target ≤ s.latest_position
      → IsNext target s.last_sent r.after rows
      → IsRunning from (catch_up_with target rows s)
  catch_up_with-IsRunning target [] s r h n =
      absurd (omega (arith, n.some_left (omega (arith, h, r.latest, log_length from s r))))
  catch_up_with-IsRunning target (e ∷ es) s r h n =
      in_phase (catching_up (e ∷ es)) s r of_rows (λ p. cc)
    where
      of_rows :
          (l : List (Event P))
          → catching_up (e ∷ es) ≡ catching_up l
          → (more : List (Event P)) × (r.after ≡ l ++ more)
      of_rows l p = let same : e ∷ es ≡ l = cc p in (n.more, n.split ∙ ap (λ x. x ++ n.more) same)

  pub turn-IsRunning :
      (target : ℕ) (s : Feed P)
      → target ≤ s.latest_position
      → IsRunning from s
      → IsRunning from (catchup_turn target s)
  unfolding catchup_turn
  turn-IsRunning target s h r = elim (Bool-cases (leb target s.last_sent)) [
    | inl reached ↦ rw reached (elim (Bool-cases (ltb s.last_sent s.latest_position)) [
      | inl more ↦ rw more r
      | inr level ↦
          rw level (in_phase registered s r (λ l p. cc) (λ p. ground (arith, level, r.ahead)))
    ])
    | inr behind ↦ rw behind (
        catch_up_with-IsRunning target _ s r h (
          query-IsNext s.filter s.last_sent target s.log (r.before ++ (s.received ++ s.channel))
            r.after r.all r.numbered (sent_split from s r) (sent_before from s r)
            (ground (arith, behind))))
  ]

  pub send-IsRunning :
      (e : Event P) (es : List (Event P)) (s : Feed P)
      → s.phase ≡ catching_up (e ∷ es)
      → IsRunning from s
      → IsRunning from (catchup_send e es s)
  send-IsRunning e es s h r =
      let (more, k) = r.to_send (e ∷ es) h in
      sent_on-IsRunning from e (es ++ more) s (catching_up es) s.cursor s.batch r.tailed r.untailed
        r k (λ l p. (more, ap (λ x. x ++ more) (cc p))) (λ p. cc) r.tail_split r.tail_at r.ahead

  with_batch :
      (rows : List (Event P)) (s : Feed P) (r : IsRunning from s)
      → (more : List (Event P)) → r.untailed ≡ rows ++ more
      → s.batch ≡ []
      → s.cursor + length rows ≤ s.latest_position
      → IsRunning from (record s { batch = rows })
  with_batch rows s r more k e h = record {
    all = r.all;
    numbered = r.numbered;
    latest = r.latest;
    peak = r.peak;
    before = r.before;
    after = r.after;
    split = r.split;
    start = r.start;
    sent = r.sent;
    counted = r.counted;
    to_send = r.to_send;
    complete = r.complete;
    tailed = r.tailed;
    untailed = more;
    tail_split = r.tail_split ∙ ap (λ l. r.tailed ++ l) (ap (λ l. l ++ r.untailed) e ∙ k);
    tail_at = r.tail_at;
    ahead = h;
  }

  pub tail-IsRunning :
      (target : ℕ) (s : Feed P)
      → target ≤ s.latest_position
      → s.batch ≡ []
      → IsRunning from s
      → IsRunning from (tailer_query target s)
  unfolding tailer_query
  tail-IsRunning target s h idle r = elim (Bool-cases (leb target s.cursor)) [
    | inl reached ↦ rw reached r
    | inr behind ↦
        let n =
          query-IsNext no_filter s.cursor target s.log r.tailed r.untailed matches-no_filter
            r.numbered (r.tail_split ∙ ap (λ l. r.tailed ++ (l ++ r.untailed)) idle) r.tail_at
            (ground (arith, behind)) in
        rw behind (with_batch _ s r n.more n.split idle (omega (arith, n.bound, h)))
  ]
