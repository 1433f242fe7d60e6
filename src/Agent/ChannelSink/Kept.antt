-- ===== src/Agent/ChannelSink/Kept.antt =====
-- The invariant of the sink of agent/src/main.cpp holds in every state that its threads reach.
use pqc_edr.Base.{
  ℕ, ◌+◌, ◌/◌, ◌≤◌, ◌<◌, ◌≡◌, refl, ap, inl, inr, true, false, ◌&&◌, List, [], ◌∷◌, ◌++◌, length,
  ltb, leb, arith, Bool-cases,
}
use pqc_edr.Event.{SecurityEvent}
use pqc_edr.Agent.ChannelSink.{
  waiting, ChannelSink, next_event, may_wake, Observed, Reaches, start, handled, stopped, woken,
  sent_event, sent_notice, failed_event, failed_notice,
}
use pqc_edr.Agent.ChannelSink.Invariant.{report_of, reported, Inv, not_gone}
use pqc_edr.Agent.ChannelSink.Handled.{handled-Inv, stopped-Inv}
use pqc_edr.Agent.ChannelSink.Sent.{sent_event-Inv, sent_notice-Inv, failed-Inv}

woken-Inv :
    (capacity : ℕ) (o : Observed) (s : ChannelSink) (q : List SecurityEvent)
    → s.q ≡ q
    → s.phase ≡ waiting
    → may_wake s ≡ true
    → Inv capacity o s
    → Inv capacity o (next_event s)
unfolding next_event
woken-Inv capacity o s [] e at wake i =
    let owed : report_of s.phase ≡ 0 = ap report_of at in
    let all : s.broken ≡ false → o.accepted ≡ o.delivered ++ [] = λ b. rw (at, e) at i.order b in
    let stopped' : s.stop ≡ true = ground arith in
    let none_left : length s.q ≡ 0 = ap length e in
    simp (e) (record {
      same_capacity = i.same_capacity;
      fits = omega arith;
      prefix = i.prefix;
      order = all;
      gone = λ _. refl;
      counted = i.counted;
      pending = λ small b. omega (arith, i.pending small b, owed);
      backlog = λ b some_pending. omega (arith, i.backlog b some_pending, none_left);
      done = λ _ _. (refl, stopped');
    })
woken-Inv capacity o s (ev ∷ rest) e at wake i =
    let owed : report_of s.phase ≡ 0 = ap report_of at in
    let all : s.broken ≡ false → o.accepted ≡ o.delivered ++ (ev ∷ rest) =
      λ b. rw (at, e) at i.order b in
    let one_less : length s.q ≡ length rest + 1 = rw e (omega arith) in
    let whole : s.broken ≡ false = not_gone capacity o s i (λ ended. cc (at, ended)) in
    let full : length rest ≤ capacity = omega (arith, i.fits, one_less) in
    let cap = i.same_capacity in
    elim (Bool-cases (ltb 0 s.dropped_pending && leb (length rest) (s.capacity / 2))) [
      | inl due ↦
          simp (e, due)
            (record {
              same_capacity = i.same_capacity;
              fits = full;
              prefix = i.prefix;
              order = all;
              gone = λ b. cc (whole, b);
              counted = i.counted;
              pending = λ small b. omega (arith, i.pending small b, owed);
              backlog = λ b some_pending. omega arith;
              done = λ ended _. cc ended;
            })
      | inr keep ↦
          let still : 0 < s.dropped_pending → capacity / 2 < length rest =
            λ p. ground (arith, cap, keep) in
          simp (e, keep)
            (record {
              same_capacity = i.same_capacity;
              fits = full;
              prefix = i.prefix;
              order = all;
              gone = λ b. cc (whole, b);
              counted = i.counted;
              pending = λ small b. omega (arith, i.pending small b, owed);
              backlog = λ b some_pending. still some_pending;
              done = λ ended _. cc ended;
            })
    ]

-- The invariant holds in every state that the threads reach; the agent asks for a capacity of at least one.
pub Reaches-Inv :
    (capacity : ℕ) (o : Observed) (s : ChannelSink)
    → 1 ≤ capacity
    → Reaches capacity o s
    → Inv capacity o s
unfolding reported
Reaches-Inv capacity o s positive start = record {
  same_capacity = refl;
  fits = omega arith;
  prefix = ([], refl);
  order = λ _. refl;
  gone = λ b. cc b;
  counted = λ _. refl;
  pending = λ _ _. refl;
  backlog = λ _ p. omega (arith, p);
  done = λ ended _. cc ended;
}
Reaches-Inv capacity _ _ positive (handled o s ev r running) =
    handled-Inv capacity o s ev positive running (Reaches-Inv capacity o s positive r)
Reaches-Inv capacity _ _ positive (stopped o s r) =
    stopped-Inv capacity o s (Reaches-Inv capacity o s positive r)
Reaches-Inv capacity _ _ positive (woken o s r at wake) =
    woken-Inv capacity o s s.q refl at wake (Reaches-Inv capacity o s positive r)
Reaches-Inv capacity _ _ positive (sent_event o s ev report total r at) =
    sent_event-Inv capacity o s ev report total at (Reaches-Inv capacity o s positive r)
Reaches-Inv capacity _ _ positive (sent_notice o s pid now report total r at) =
    sent_notice-Inv capacity o s pid now report total at (Reaches-Inv capacity o s positive r)
Reaches-Inv capacity _ _ positive (failed_event o s ev report total r at) =
    failed-Inv capacity o s (Reaches-Inv capacity o s positive r)
Reaches-Inv capacity _ _ positive (failed_notice o s report total r at) =
    failed-Inv capacity o s (Reaches-Inv capacity o s positive r)
