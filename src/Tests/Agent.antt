-- ===== src/Tests/Agent.antt =====
-- The theorems on the forwarding sink of agent/src/main.cpp at a run with a drop.
use pqc_edr.Base.{◌+◌, ◌≤◌, ◌≡◌, refl, true, List, [], ◌∷◌, ◌++◌, length, arith}
use pqc_edr.Event.{SecurityEvent}
use pqc_edr.Agent.ChannelSink.{
  returned, ChannelSink, Observed, Reaches, new_sink, start, handled, stopped, woken, sent_event,
  sent_notice, handle, next_event, send_one, request_stop, make_drop_notice,
}
use pqc_edr.Agent.ChannelSink.Invariant.{in_flight, report_of, reported}
use pqc_edr.Agent.ChannelSink.Drain.{thread_steps, thread_drains}
use pqc_edr.Agent.ChannelSink.Loss.{queue_bounded_fifo, drops_accounted, no_silent_loss}
use pqc_edr.Tests.Events.{connects}

abbrev a : SecurityEvent
a = connects 443 1

abbrev b : SecurityEvent
b = connects 443 2

-- One event is taken, the next is dropped, both are told to the analyzer, and the thread returns.
abbrev seen_at :
    List SecurityEvent → List SecurityEvent → List SecurityEvent → List SecurityEvent → Observed
seen_at accepted lost delivered notices = record {
  accepted = accepted;
  lost = lost;
  delivered = delivered;
  notices = notices;
}

abbrev final : ChannelSink
final = record (new_sink 1) { stop = true; dropped = 1; peak = 1; sent = 2; phase = returned }

-- A notice is made of the sink's `sent` alone.
abbrev notice : SecurityEvent
notice = make_drop_notice 7 9 1 1 (record (new_sink 1) { sent = 1 })

abbrev final_seen : Observed
final_seen = seen_at (a ∷ []) (b ∷ []) (a ∷ []) (notice ∷ [])

final_reached : Reaches 1 final_seen final
unfolding handle next_event send_one request_stop make_drop_notice
final_reached =
    woken _ _
      (stopped _ _ (
        sent_notice _ _ 7 9 1 1
          (sent_event _ _ a 1 1
            (woken _ _ (handled _ _ b (handled _ _ a start refl) refl) refl refl) refl)
          refl))
      refl refl

queue_bounded_fifo_example :
    (length final.q ≤ 1)
    × ((rest : List SecurityEvent) × (final_seen.accepted ≡ final_seen.delivered ++ rest))
queue_bounded_fifo_example = queue_bounded_fifo 1 final_seen final (omega arith) final_reached

drops_accounted_example :
    (final_seen.accepted ≡ final_seen.delivered ++ (in_flight final.phase ++ final.q))
    × (final.dropped_pending + report_of final.phase + reported final_seen.notices
        ≡ length final_seen.lost)
    × (final.dropped ≡ length final_seen.lost)
drops_accounted_example =
    drops_accounted 1 final_seen final (omega arith) final_reached refl (omega arith)

no_silent_loss_example :
    (final_seen.delivered ≡ final_seen.accepted)
    × (reported final_seen.notices ≡ length final_seen.lost)
no_silent_loss_example =
    no_silent_loss 1 final_seen final (omega arith) final_reached refl refl (omega arith)

-- One event is queued when the destructor runs.
abbrev stopping : ChannelSink
stopping = record (new_sink 1) { q = a ∷ []; stop = true; peak = 1 }

stopping_reached : Reaches 1 (seen_at (a ∷ []) [] [] []) stopping
unfolding handle request_stop
stopping_reached = stopped _ _ (handled _ _ a start refl)

thread_drains_example :
    let r = thread_steps 7 9 4 (seen_at (a ∷ []) [] [] []) stopping in
    (r.1.phase ≡ returned) × (r.0.delivered ≡ a ∷ []) × (r.1.q ≡ [])
thread_drains_example =
    thread_drains 1 7 9 4 (seen_at (a ∷ []) [] [] []) stopping (omega arith) stopping_reached refl
      refl (omega arith)
