-- ===== src/EventStore/Subscription/Running.antt =====
-- What the steps keep, where the filter passes every event.
use gohome.Prelude.{
  ℕ, zero, suc, ◌+◌, ◌-◌, ◌≤◌, ◌<◌, ◌≡◌, refl, sym, ap, ◌∙◌, subst, Bool, true, List, [], ◌∷◌, ◌++◌,
  keep_if, take, drop, take-append-drop, length-take, length, length-append, arith,
}
use mathlib.Core.List.{append_assoc}
use gohome.EventStore.Event.{Event, Filter, matches}
use gohome.EventStore.Store.Outcome.{IsNumbered, IsNumbered-append}
use gohome.EventStore.Query.{query, select_rows}
use gohome.EventStore.Query.Ranges.{IsNumbered-after, select_rows-after}
use gohome.EventStore.Subscription.{Phase, catching_up, registered, Feed, no_filter, sent_on}

module _ {P : Type 0} where
  keep_if-all :
      (p : Event P → Bool) (es : List (Event P)) → ((e : Event P) → p e ≡ true) → keep_if p es ≡ es
  keep_if-all p [] h = refl
  keep_if-all p (e ∷ es) h = rw (h e, keep_if-all p es h) refl

  pub matches-no_filter : (e : Event P) → matches no_filter e ≡ true
  unfolding matches
  matches-no_filter e = refl

  -- the rows of a query are the next ones of the log
  pub record IsNext (to : ℕ) (from : ℕ) (after rows : List (Event P)) : Type 0 where
    pub more : List (Event P)
    pub split : after ≡ rows ++ more
    pub bound : from + length rows ≤ to
    pub some_left : to ≤ from + length after → 1 ≤ length rows

  take-IsNext :
      (from to : ℕ) (after : List (Event P))
      → from < to
      → IsNext to from after (take 1000 (take (to - from) after))
  take-IsNext from to after h = record {
    more = drop 1000 (take (to - from) after) ++ drop (to - from) after;
    split =
        take-append-drop (to - from) after
        ∙ ap (λ l. l ++ drop (to - from) after) (take-append-drop 1000 (take (to - from) after))
        ∙ append_assoc (take 1000 (take (to - from) after)) _ _;
    bound = omega (arith, h, short 1000 (take (to - from) after), length-take (to - from) after);
    some_left = λ k. of_room (to - from) after (omega (arith, h)) (omega (arith, h, k));
  }
    where
      short : (n : ℕ) (l : List (Event P)) → length (take n l) ≤ length l
      short zero l = omega arith
      short (suc n) [] = omega arith
      short (suc n) (x ∷ l) = omega (arith, short n l)

      of_room :
          (n : ℕ) (l : List (Event P)) → 1 ≤ n → 1 ≤ length l → 1 ≤ length (take 1000 (take n l))
      of_room zero l a b = absurd (omega (arith, a))
      of_room (suc n) [] a b = absurd (omega (arith, b))
      of_room (suc n) (x ∷ l) a b = omega arith

  pub query-IsNext :
      (f : Filter) (from to : ℕ) (log before after : List (Event P))
      → ((e : Event P) → matches f e ≡ true)
      → IsNumbered 1 log
      → log ≡ before ++ after
      → length before ≡ from
      → from < to
      → IsNext to from after
          (query (record { from_position = from; to_position = to; filter = f; limit = 1000 }) log)
  unfolding query
  query-IsNext f from zero log before after all h split e lt = absurd (omega (arith, lt))
  query-IsNext f from (suc to) log before after all h split e lt =
      let rows : keep_if (matches f) (select_rows from (suc to) 1000 log)
          ≡ take 1000 (take (suc to - from) after) =
        keep_if-all (matches f) (select_rows from (suc to) 1000 log) all
        ∙ ap (select_rows from (suc to) 1000) split
        ∙ select_rows-after from (suc to) 1000 before after (rw (← split) h) e in
      rw rows (take-IsNext from (suc to) after lt)

  -- two splits of a list at the same place
  pub same_rest :
      (xs ys xs' ys' : List (Event P)) → xs ++ ys ≡ xs' ++ ys' → length xs ≡ length xs' → ys ≡ ys'
  same_rest [] ys [] ys' h k = h
  same_rest [] ys (x ∷ xs') ys' h k = absurd (omega (arith, k))
  same_rest (x ∷ xs) ys [] ys' h k = absurd (omega (arith, k))
  same_rest (x ∷ xs) ys (x' ∷ xs') ys' h k = same_rest xs ys xs' ys' (cc h) (omega (arith, k))

  module _ (from : ℕ) where
    -- what the steps keep, with the subscriber's and the tailer's place in the log
    pub record IsRunning (s : Feed P) : Type 0 where
      pub all : (e : Event P) → matches s.filter e ≡ true
      pub numbered : IsNumbered 1 s.log
      pub latest : s.latest_position ≤ length s.log
      pub peak : s.peak ≡ s.latest_position
      pub before : List (Event P)
      pub after : List (Event P)
      pub split : s.log ≡ before ++ ((s.received ++ s.channel) ++ after)
      pub start : length before ≡ from
      pub sent : s.last_sent ≡ from + length (s.received ++ s.channel)
      pub counted : s.delivered ≡ length (s.received ++ s.channel)
      pub to_send :
          (es : List (Event P))
          → s.phase ≡ catching_up es
          → (more : List (Event P)) × (after ≡ es ++ more)
      pub complete : s.phase ≡ registered → s.cursor ≤ s.last_sent
      pub tailed : List (Event P)
      pub untailed : List (Event P)
      pub tail_split : s.log ≡ tailed ++ (s.batch ++ untailed)
      pub tail_at : length tailed ≡ s.cursor
      pub ahead : s.cursor + length s.batch ≤ s.latest_position

    pub commit-IsRunning :
        (rows : List (Event P)) (s : Feed P)
        → IsNumbered (suc (length s.log)) rows
        → IsRunning s
        → IsRunning (record s { log = s.log ++ rows })
    commit-IsRunning rows s h r = record {
      all = r.all;
      numbered = IsNumbered-append 1 (suc (length s.log)) s.log rows r.numbered h (omega arith);
      latest = omega (arith, r.latest, length-append s.log rows);
      peak = r.peak;
      before = r.before;
      after = r.after ++ rows;
      split =
          ap (λ l. l ++ rows) r.split
          ∙ append_assoc r.before _ rows
          ∙ ap (λ l. r.before ++ l) (append_assoc (s.received ++ s.channel) r.after rows);
      start = r.start;
      sent = r.sent;
      counted = r.counted;
      to_send = λ es e.
          let (more, k) = r.to_send es e in
          (more ++ rows, ap (λ l. l ++ rows) k ∙ append_assoc es more rows);
      complete = r.complete;
      tailed = r.tailed;
      untailed = r.untailed ++ rows;
      tail_split =
          ap (λ l. l ++ rows) r.tail_split
          ∙ append_assoc r.tailed _ rows
          ∙ ap (λ l. r.tailed ++ l) (append_assoc s.batch r.untailed rows);
      tail_at = r.tail_at;
      ahead = r.ahead;
    }

    -- the place of the last event sent
    pub sent_before :
        (s : Feed P) (r : IsRunning s)
        → length (r.before ++ (s.received ++ s.channel)) ≡ s.last_sent
    sent_before s r =
        length-append r.before (s.received ++ s.channel) ∙ omega (arith, r.start, r.sent)

    pub sent_split :
        (s : Feed P) (r : IsRunning s) → s.log ≡ (r.before ++ (s.received ++ s.channel)) ++ r.after
    sent_split s r = r.split ∙ sym (append_assoc r.before (s.received ++ s.channel) r.after)

    pub log_length : (s : Feed P) (r : IsRunning s) → length s.log ≡ s.last_sent + length r.after
    log_length s r =
        ap length (sent_split s r)
        ∙ length-append _ r.after
        ∙ ap (λ n. n + length r.after) (sent_before s r)

    -- the next event in the channel
    pub sent_on-IsRunning :
        (e : Event P) (es : List (Event P)) (s : Feed P) (phase : Phase P) (cursor : ℕ)
        (batch tailed untailed : List (Event P)) (r : IsRunning s)
        → r.after ≡ e ∷ es
        → ((l : List (Event P))
            → phase ≡ catching_up l
            → (more : List (Event P)) × (es ≡ l ++ more))
        → (phase ≡ registered → cursor ≤ suc s.last_sent)
        → s.log ≡ tailed ++ (batch ++ untailed)
        → length tailed ≡ cursor
        → cursor + length batch ≤ s.latest_position
        → IsRunning (record (sent_on e s) { phase = phase; cursor = cursor; batch = batch })
    sent_on-IsRunning e es s phase cursor batch tailed untailed r k to_send complete tail_split
          tail_at ahead =
        let sent = s.received ++ s.channel in
        let moved : s.received ++ (s.channel ++ (e ∷ [])) ≡ sent ++ (e ∷ []) =
          sym (append_assoc s.received s.channel (e ∷ [])) in
        let more : length (s.received ++ (s.channel ++ (e ∷ []))) ≡ suc (length sent) =
          ap length moved ∙ length-append sent (e ∷ []) ∙ omega arith in
        let numbered : IsNumbered (suc s.last_sent) (e ∷ es) =
          subst (IsNumbered (suc s.last_sent)) k (
            IsNumbered-after 1 (suc s.last_sent) _ r.after
              (subst (IsNumbered 1) (sent_split s r) r.numbered)
              (omega (arith, sent_before s r))) in
        record {
          all = r.all;
          numbered = r.numbered;
          latest = r.latest;
          peak = r.peak;
          before = r.before;
          after = es;
          split =
              r.split
              ∙ ap (λ l. r.before ++ l)
                  (ap (λ l. sent ++ l) k
                    ∙ sym (append_assoc sent (e ∷ []) es)
                    ∙ ap (λ l. l ++ es) (sym moved));
          start = r.start;
          sent = omega (arith, numbered.0, r.sent, more);
          counted = omega (arith, r.counted, more);
          to_send = to_send;
          complete = λ p. omega (arith, numbered.0, complete p);
          tailed = tailed;
          untailed = untailed;
          tail_split = tail_split;
          tail_at = tail_at;
          ahead = ahead;
        }
