-- ===== src/Agent/ChannelSink/Loss.antt =====
-- What the forwarding sink of agent/src/main.cpp loses, and that the analyzer is told of it.
use pqc_edr.Base.{
  ℕ, ◌+◌, ◌/◌, ◌^◌, ◌≤◌, ◌<◌, ◌≡◌, sym, ap, ◌∙◌, false, List, [], ◌++◌, length, arith, append-nil,
}
use pqc_edr.Event.{SecurityEvent}
use pqc_edr.Agent.ChannelSink.{returned, ChannelSink, Observed, Reaches}
use pqc_edr.Agent.ChannelSink.Invariant.{Inv, in_flight, report_of, reported}
use pqc_edr.Agent.ChannelSink.Kept.{Reaches-Inv}

module _ (capacity : ℕ) (o : Observed) (s : ChannelSink) (positive : 1 ≤ capacity)
    (run : Reaches capacity o s) where
  inv : Inv capacity o s
  inv = Reaches-Inv capacity o s positive run

  -- The queue never holds more than its capacity, and the events that were sent are the first ones that
  -- the sink took, in their order, also after a failed send. The capacity is at least one.
  pub queue_bounded_fifo :
      (length s.q ≤ capacity) × ((rest : List SecurityEvent) × (o.accepted ≡ o.delivered ++ rest))
  queue_bounded_fifo = (inv.fits, inv.prefix)

  -- Every drop is accounted for while no send has failed: the events that the sink took are those sent, the one in
  -- flight and those in the queue, and the drops are those that sent notices name, those of the notice that
  -- is due, and those that wait to be reported. Fewer than 2^64 events are dropped, and the capacity is at
  -- least one.
  pub drops_accounted :
      s.broken ≡ false
      → length o.lost < 2 ^ 64
      → (o.accepted ≡ o.delivered ++ (in_flight s.phase ++ s.q))
        × (s.dropped_pending + report_of s.phase + reported o.notices ≡ length o.lost)
        × (s.dropped ≡ length o.lost)
  drops_accounted whole small = (inv.order whole, inv.pending small whole, inv.counted small)

  -- No loss is silent: where the sending thread has returned and no send has failed, every event that the
  -- sink took was sent, in order, and the notices that were sent name every drop. Fewer than 2^64 events are
  -- dropped, and the capacity is at least one.
  pub no_silent_loss :
      s.phase ≡ returned
      → s.broken ≡ false
      → length o.lost < 2 ^ 64
      → (o.delivered ≡ o.accepted) × (reported o.notices ≡ length o.lost)
  no_silent_loss ended whole small =
      let (drained, _) = inv.done ended whole in
      let all : o.accepted ≡ o.delivered ++ [] = rw (ended, drained) at inv.order whole in
      let none_due : report_of s.phase ≡ 0 = ap report_of ended in
      let empty : length s.q ≡ 0 = ap length drained in
      (
        sym (all ∙ append-nil o.delivered),
        ground (arith, inv.pending small whole, inv.backlog whole, none_due, empty),
      )

  -- Drops wait for their report only while the queue is more than half full: with the queue at half or
  -- below, and no failed send, none is pending. The capacity is at least one.
  pub pending_means_congested : s.broken ≡ false → length s.q ≤ capacity / 2 → s.dropped_pending ≡ 0
  pending_means_congested whole low = ground (arith, inv.backlog whole, low)
