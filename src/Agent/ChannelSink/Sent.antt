-- ===== src/Agent/ChannelSink/Sent.antt =====
-- The sends of the thread keep the invariant of the sink of agent/src/main.cpp.
use pqc_edr.Base.{
  ℕ, ◌≡◌, ◌≢◌, refl, sym, ap, ◌∙◌, inl, inr, true, false, [], ◌∷◌, ◌++◌, ltb, arith, Bool-cases,
  append_assoc,
}
use pqc_edr.Event.{SecurityEvent}
use pqc_edr.Agent.ChannelSink.{
  waiting, sending, reporting, returned, ChannelSink, send_one, make_drop_notice, after_event,
  Observed,
}
use pqc_edr.Agent.ChannelSink.Invariant.{in_flight, report_of, reported-append, Inv, not_gone}

pub sent_event-Inv :
    (capacity : ℕ) (o : Observed) (s : ChannelSink) (ev : SecurityEvent) (report total : ℕ)
    → s.phase ≡ sending ev report total
    → Inv capacity o s
    → Inv capacity
        (record o { delivered = o.delivered ++ ev ∷ [] })
        (record (send_one true s) { phase = after_event report total })
unfolding send_one
sent_event-Inv capacity o s ev report total at i =
    let whole : s.broken ≡ false = not_gone capacity o s i (λ ended. cc (at, ended)) in
    let all : o.accepted ≡ (o.delivered ++ ev ∷ []) ++ s.q =
      (rw at at i.order whole) ∙ sym (append_assoc o.delivered (ev ∷ []) s.q) in
    let owed : report_of s.phase ≡ report = ap report_of at in
    let next : (in_flight (after_event report total) ≡ [])
        × (report_of (after_event report total) ≡ report)
        × (after_event report total ≢ returned) =
      after_event_lem report total in
    record {
      same_capacity = i.same_capacity;
      fits = i.fits;
      prefix = (s.q, all);
      order = λ _. rw (next.0) all;
      gone = λ b. cc (whole, b);
      counted = i.counted;
      pending = λ small fine. omega (arith, i.pending small whole, owed, next.1);
      backlog = i.backlog;
      done = λ ended _. absurd (next.2 ended);
    }
  where
    after_event_lem :
        (r t : ℕ)
        → (in_flight (after_event r t) ≡ [])
          × (report_of (after_event r t) ≡ r)
          × (after_event r t ≢ returned)
    after_event_lem r t = elim (Bool-cases (ltb 0 r)) [
      | inl b ↦ rw b (refl, refl, λ e. cc e)
      | inr b ↦ let none_left : r ≡ 0 = ground arith in rw b (refl, sym none_left, λ e. cc e)
    ]

pub sent_notice-Inv :
    (capacity : ℕ) (o : Observed) (s : ChannelSink) (pid now report total : ℕ)
    → s.phase ≡ reporting report total
    → Inv capacity o s
    → Inv capacity
        (record o { notices = o.notices ++ make_drop_notice pid now report total s ∷ [] })
        (record (send_one true s) { phase = waiting })
unfolding send_one make_drop_notice
sent_notice-Inv capacity o s pid now report total at i =
    let whole : s.broken ≡ false = not_gone capacity o s i (λ ended. cc (at, ended)) in
    let owed : report_of s.phase ≡ report = ap report_of at in
    let all : o.accepted ≡ o.delivered ++ s.q = rw at at i.order whole in
    record {
      same_capacity = i.same_capacity;
      fits = i.fits;
      prefix = i.prefix;
      order = λ _. all;
      gone = λ b. cc (whole, b);
      counted = i.counted;
      pending = λ small fine. omega (
        arith,
        i.pending small whole,
        owed,
        reported-append o.notices (make_drop_notice pid now report total s),
      );
      backlog = i.backlog;
      done = λ ended _. cc ended;
    }

pub failed-Inv :
    (capacity : ℕ) (o : Observed) (s : ChannelSink)
    → Inv capacity o s
    → Inv capacity o (send_one false s)
unfolding send_one
failed-Inv capacity o s i = record {
  same_capacity = i.same_capacity;
  fits = i.fits;
  prefix = i.prefix;
  order = λ b. cc b;
  gone = λ _. refl;
  counted = i.counted;
  pending = λ _ b. cc b;
  backlog = λ b _. cc b;
  done = λ _ b. cc b;
}
