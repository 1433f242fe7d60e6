-- ===== src/Agent/ChannelSink/Handled.antt =====
-- The callback and the destructor keep the invariant of the sink of agent/src/main.cpp.
use pqc_edr.Base.{
  ℕ, ◌^◌, ◌≤◌, ◌<◌, ◌≡◌, refl, inl, inr, true, false, [], ◌∷◌, length, ltb, leb, arith, Bool-cases,
  length-append, leb→le,
}
use pqc_edr.Event.{SecurityEvent}
use pqc_edr.Agent.ChannelSink.{ChannelSink, handle, request_stop, Observed, observed_handle}
use pqc_edr.Agent.ChannelSink.Invariant.{in_flight, Inv, take_in, take_last}

pub handled-Inv :
    (capacity : ℕ) (o : Observed) (s : ChannelSink) (ev : SecurityEvent)
    → 1 ≤ capacity
    → s.stop ≡ false
    → Inv capacity o s
    → Inv capacity (observed_handle s ev o) (handle s ev)
unfolding handle
handled-Inv capacity o s ev positive running i = elim (Bool-cases s.broken) [
  | inl b ↦ simp (b) i
  | inr b ↦ elim (Bool-cases (leb s.capacity (length s.q))) [
    | inl full ↦
        let no_room : ltb (length s.q) s.capacity ≡ false = ground arith in
        let cap = i.same_capacity in
        let le = leb→le _ _ full in
        simp (b, full, no_room)
          (record {
            same_capacity = i.same_capacity;
            fits = i.fits;
            prefix = i.prefix;
            order = λ _. i.order b;
            gone = λ wrong. cc;
            counted = λ small. omega (arith, i.counted, small, length-append o.lost (ev ∷ []));
            pending = λ small _.
                let one_more = length-append o.lost (ev ∷ []) in
                let fewer : length o.lost < 2 ^ 64 = omega (arith, one_more) in
                omega (arith, i.pending fewer b, one_more);
            backlog = λ _ _. omega (arith, cap, le, positive);
            done = λ ended _. i.done ended b;
          })
    | inr room ↦
        let is_room : ltb (length s.q) s.capacity ≡ true = ground arith in
        let cap = i.same_capacity in
        let le = i.fits in
        let added = length-append s.q (ev ∷ []) in
        simp (b, room, is_room)
          (record {
            same_capacity = i.same_capacity;
            fits = ground arith;
            prefix = take_in o ev i.prefix;
            order = λ _. take_last o ev (in_flight s.phase) s.q (i.order b);
            gone = λ wrong. cc;
            counted = i.counted;
            pending = λ small _. i.pending small b;
            backlog =
                λ _ some_pending. let old = i.backlog b some_pending in omega (arith, added, old);
            done = λ ended _. absurd (cc (running, (i.done ended b).1));
          })
  ]
]

pub stopped-Inv :
    (capacity : ℕ) (o : Observed) (s : ChannelSink)
    → Inv capacity o s
    → Inv capacity o (request_stop s)
unfolding request_stop
stopped-Inv capacity o s i = record {
  same_capacity = i.same_capacity;
  fits = i.fits;
  prefix = i.prefix;
  order = i.order;
  gone = i.gone;
  counted = i.counted;
  pending = i.pending;
  backlog = i.backlog;
  done = λ ended fine. ((i.done ended fine).0, refl);
}
