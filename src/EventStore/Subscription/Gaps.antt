-- ===== src/EventStore/Subscription/Gaps.antt =====
-- Catching up with a filter: the limit of the query counts the rows before they are filtered.
use gohome.Prelude.{
  ℕ, zero, suc, ◌≤◌, ◌<◌, ◌≡◌, refl, sym, ap, ◌∙◌, subst, Bool, true, false, not, List, [], ◌∷◌,
  ◌++◌, ◌⊎◌, inl, inr, Memᴰ, ltb, leb, eqb, keep_if, mem-keep_if, take, arith, if◌then◌else◌,
  &&_true, ltb→lt,
}
use mathlib.Core.List.{append_assoc}
use mathlib.Core.List.Memᴰ
use gohome.EventStore.Event.{Event, matches}
use gohome.EventStore.Query.{QueryOptions, query, in_range, select_rows}
use gohome.EventStore.Subscription.{
  Phase, catching_up, registered, closed, Feed, has_room, sent_on, catch_up_with, catchup_turn,
  tailer_query, try_send, dispatch_to, dispatch_row,
}
use gohome.EventStore.Subscription.Steps.{
  Step, commit, publish_one, publish_last, turn, send, tail, deliver, consume, hang_up, Steps, here,
  next,
}

module _ {P : Type 0} where
  mem-take : (e : Event P) (n : ℕ) (l : List (Event P)) → Memᴰ e (take n l) → Memᴰ e l
  mem-take e zero l m = absurd (Memᴰ.not-nil m)
  mem-take e (suc n) [] m = absurd (Memᴰ.not-nil m)
  mem-take e (suc n) (x ∷ l) m = elim (Memᴰ.cases_cons m) [
    | inl h ↦ Memᴰ.head h
    | inr later ↦ Memᴰ.tail (mem-take e n l later)
  ]

  pub query-past :
      (q : QueryOptions) (log : List (Event P)) (e : Event P)
      → Memᴰ e (query q log)
      → q.from_position < e.position
  unfolding query
  query-past q log e m =
      let rows =
        (mem-keep_if (matches q.filter) e
          (select_rows q.from_position q.to_position (if eqb q.limit 0 then 1000 else q.limit) log)
          m).0 in
      let kept =
        (mem-keep_if (λ x. in_range q.from_position q.to_position x.position) e log
          (mem-take e _ _ rows)).1 in
      ltb→lt q.from_position e.position (&&_true _ _ kept).0

  -- All that a subscriber has been sent is in `old` or past the target, and what it will be sent
  -- is past the target.
  record IsPast (target : ℕ) (old : List (Event P)) (s : Feed P) : Type 0 where
    sent : (e : Event P) → Memᴰ e (s.received ++ s.channel) → Memᴰ e old ⊎ (target < e.position)
    to_send :
        (es : List (Event P))
        → s.phase ≡ catching_up es
        → (e : Event P) → Memᴰ e es
        → target < e.position
    last : target ≤ s.last_sent

  module _ (target : ℕ) (old : List (Event P)) where
    send-IsPast :
        (e : Event P) (s : Feed P) (phase : Phase P)
        → IsPast target old s
        → target < e.position
        → ((es : List (Event P))
            → phase ≡ catching_up es
            → (x : Event P) → Memᴰ x es
            → target < x.position)
        → IsPast target old (record (sent_on e s) { phase = phase })
    send-IsPast e s phase r h k = record {
      sent = λ x m.
          elim (Memᴰ.append_cases (s.received ++ s.channel)
            (subst (Memᴰ x) (sym (append_assoc s.received s.channel (e ∷ []))) m)) [
              | inl before ↦ r.sent x before
              | inr new ↦ inr (elim (Memᴰ.cases_cons new) [
                | inl same ↦ rw same h
                | inr none_left ↦ absurd (Memᴰ.not-nil none_left)
              ])
            ];
      to_send = k;
      last = omega (arith, h);
    }

    turn-IsPast :
        (goal : ℕ) (s : Feed P)
        → s.phase ≡ catching_up []
        → IsPast target old s
        → IsPast target old (catchup_turn goal s)
    unfolding catchup_turn
    turn-IsPast goal s idle r = of_test (leb goal s.last_sent) refl
      where
        rows : List (Event P)
        rows =
            query
              (record {
                from_position = s.last_sent;
                to_position = goal;
                filter = s.filter;
                limit = 1000;
              })
              s.log

        of_rows :
            (l : List (Event P))
            → ((e : Event P) → Memᴰ e l → s.last_sent < e.position)
            → s.last_sent < goal
            → IsPast target old (catch_up_with goal l s)
        of_rows [] h k = record {
          sent = r.sent;
          to_send = r.to_send;
          last = omega (arith, r.last, k);
        }
        of_rows (e ∷ es) h k = record {
          sent = r.sent;
          to_send = λ l p x m.
              let same : e ∷ es ≡ l = cc p in
              let q : s.last_sent < x.position = h x (subst (Memᴰ x) (sym same) m) in
              omega (arith, q, r.last);
          last = r.last;
        }

        of_level : (b : Bool) → IsPast target old (if b then s else record s { phase = registered })
        of_level true = r
        of_level false = record { sent = r.sent; to_send = λ l p. cc; last = r.last }

        of_test :
            (b : Bool)
            → leb goal s.last_sent ≡ b
            → IsPast target old (
                if b
                then if ltb s.last_sent s.latest_position
                  then s
                  else record s { phase = registered }
                else catch_up_with goal rows s)
        of_test true p = of_level (ltb s.last_sent s.latest_position)
        of_test false p =
            of_rows rows
              (query-past
                (record {
                  from_position = s.last_sent;
                  to_position = goal;
                  filter = s.filter;
                  limit = 1000;
                })
                s.log)
              (ground (arith, p))

    tail-IsPast :
        (goal : ℕ) (s : Feed P) → IsPast target old s → IsPast target old (tailer_query goal s)
    unfolding tailer_query
    tail-IsPast goal s r = of_test (leb goal s.cursor) _
      where
        of_test :
            (b : Bool) (rows : List (Event P))
            → IsPast target old (if b then s else record s { batch = rows })
        of_test true rows = r
        of_test false rows = record { sent = r.sent; to_send = r.to_send; last = r.last }

    -- the tailer's fields do not matter
    keep-IsPast :
        (s : Feed P) (phase : Phase P) (dropped cursor : ℕ) (batch : List (Event P))
        → IsPast target old s
        → ((es : List (Event P))
            → phase ≡ catching_up es
            → (x : Event P) → Memᴰ x es
            → target < x.position)
        → IsPast target old
            (record s { phase = phase; dropped = dropped; cursor = cursor; batch = batch })
    keep-IsPast s phase dropped cursor batch r k = record {
      sent = r.sent;
      to_send = k;
      last = r.last;
    }

    deliver-IsPast :
        (e : Event P) (es : List (Event P)) (s : Feed P)
        → IsPast target old s
        → IsPast target old (dispatch_row e es s)
    unfolding dispatch_row
    deliver-IsPast e es s r = of_phase s.phase refl
      where
        same : IsPast target old (record s { cursor = e.position; batch = es })
        same = keep-IsPast s s.phase s.dropped e.position es r r.to_send

        of_room :
            (room : Bool)
            → s.phase ≡ registered
            → target < e.position
            → IsPast target old (record (try_send room e s) { cursor = e.position; batch = es })
        of_room true p h =
            let t = send-IsPast e s s.phase r h r.to_send in
            record { sent = t.sent; to_send = t.to_send; last = t.last }
        of_room false p h = keep-IsPast s closed (suc s.dropped) e.position es r (λ l q. cc)

        of_test :
            (a b : Bool)
            → s.phase ≡ registered
            → leb e.position s.last_sent ≡ b
            → IsPast target old
                (record (if not a then s else if b then s else try_send (has_room s) e s) {
                  cursor = e.position;
                  batch = es;
                })
        of_test false b p q = same
        of_test true true p q = same
        of_test true false p q = of_room (has_room s) p (ground (arith, r.last, q))

        of_phase :
            (phase : Phase P)
            → s.phase ≡ phase
            → IsPast target old (record (dispatch_to phase e s) { cursor = e.position; batch = es })
        of_phase (catching_up l) p = same
        of_phase closed p = same
        of_phase registered p = of_test (matches s.filter e) (leb e.position s.last_sent) p refl

    Step-IsPast : {s t : Feed P} → Step s t → IsPast target old s → IsPast target old t
    Step-IsPast {s = s} (commit rows h) r = record {
      sent = r.sent;
      to_send = r.to_send;
      last = r.last;
    }
    Step-IsPast {s = s} (publish_one pos h) r = record {
      sent = r.sent;
      to_send = r.to_send;
      last = r.last;
    }
    Step-IsPast {s = s} (publish_last pos h) r = record {
      sent = r.sent;
      to_send = r.to_send;
      last = r.last;
    }
    Step-IsPast {s = s} (turn goal h idle) r = turn-IsPast goal s idle r
    Step-IsPast {s = s} (send e es h room) r =
        send-IsPast e s (catching_up es) r (r.to_send (e ∷ es) h e (Memᴰ.head refl)) (λ l p x m.
          let same : es ≡ l = cc p in
          r.to_send (e ∷ es) h x (Memᴰ.tail (subst (Memᴰ x) (sym same) m)))
    Step-IsPast {s = s} (tail goal h idle) r = tail-IsPast goal s r
    Step-IsPast {s = s} (deliver e es h) r = deliver-IsPast e es s r
    Step-IsPast {s = s} (consume e es h) r = record {
      sent = λ x m. r.sent x (
          subst (Memᴰ x) (append_assoc s.received (e ∷ []) es ∙ ap (λ l. s.received ++ l) (sym h))
            m);
      to_send = r.to_send;
      last = r.last;
    }
    Step-IsPast {s = s} hang_up r = record { sent = r.sent; to_send = λ l p. cc; last = r.last }

    Steps-IsPast : {s t : Feed P} → Steps s t → IsPast target old s → IsPast target old t
    Steps-IsPast here r = r
    Steps-IsPast (next run step) r = Step-IsPast step (Steps-IsPast run r)

  skip_chunk :
      (target : ℕ) (s : Feed P)
      → s.phase ≡ catching_up []
      → s.last_sent < target
      → keep_if (matches s.filter) (select_rows s.last_sent target 1000 s.log) ≡ []
      → catchup_turn target s ≡ record s { last_sent = target }
  unfolding catchup_turn query
  skip_chunk target s idle h none_matches =
      let behind : leb target s.last_sent ≡ false = ground (arith, h) in
      rw (behind, none_matches) refl

  -- Where a subscriber that catches up has a target of more than 1000 rows ahead, and none of the
  -- first 1000 rows passes its filter, no row up to the target is ever sent to it, whatever steps follow:
  -- also not one that passes the filter.
  pub catchup_turn-IsMissed :
      (target : ℕ) (s t : Feed P) (e : Event P)
      → s.phase ≡ catching_up []
      → s.last_sent < target
      → keep_if (matches s.filter) (select_rows s.last_sent target 1000 s.log) ≡ []
      → e.position ≤ target
      → ¬ Memᴰ e (s.received ++ s.channel)
      → Steps (catchup_turn target s) t
      → ¬ Memᴰ e (t.received ++ t.channel)
  catchup_turn-IsMissed target s t e idle h none_matches within fresh run m =
      elim ((Steps-IsPast target (s.received ++ s.channel) run (
          subst (IsPast target (s.received ++ s.channel))
            (sym (skip_chunk target s idle h none_matches)) start)).sent
        e m) [
          | inl before ↦ absurd (fresh before)
          | inr past ↦ absurd (omega (arith, past, within))
        ]
    where
      start : IsPast target (s.received ++ s.channel) (record s { last_sent = target })
      start = record {
        sent = λ x k. inl k;
        to_send = λ l p x k.
            let none_left : [] ≡ l = cc (sym idle ∙ p) in
            absurd (Memᴰ.not-nil (subst (Memᴰ x) (sym none_left) k));
        last = omega arith;
      }
