-- ===== src/Agent/ChannelSink/Invariant.antt =====
-- What holds of the sink of agent/src/main.cpp in every state that its two threads reach.
use pqc_edr.Base.{
  ℕ, ◌+◌, ◌/◌, ◌^◌, ◌≤◌, ◌<◌, ◌≡◌, ◌≢◌, refl, inl, inr, true, false, List, [], ◌∷◌, ◌++◌, length,
  arith, Bool-cases, append_assoc,
}
use pqc_edr.Event.{SecurityEvent}
use pqc_edr.Agent.ChannelSink.{Phase, waiting, sending, reporting, returned, ChannelSink, Observed}

-- The event that the thread holds, and the drops that it has to report.
abbrev pub in_flight : Phase → List SecurityEvent
in_flight waiting = []
in_flight (sending ev report total) = ev ∷ []
in_flight (reporting report total) = []
in_flight returned = []

abbrev pub report_of : Phase → ℕ
report_of waiting = 0
report_of (sending ev report total) = report
report_of (reporting report total) = report
report_of returned = 0

-- The drops that notices name in all.
unfoldable pub reported : List SecurityEvent → ℕ
reported [] = 0
reported (n ∷ ns) = n.drop.dropped + reported ns

pub reported-append :
    (ns : List SecurityEvent) (n : SecurityEvent)
    → reported (ns ++ n ∷ []) ≡ reported ns + n.drop.dropped
unfolding reported
reported-append [] n = omega arith
reported-append (m ∷ ns) n = omega (arith, reported-append ns n)

abbrev pub Prefix : Observed → Type 0
Prefix o = (rest : List SecurityEvent) × (o.accepted ≡ o.delivered ++ rest)

pub record Inv (capacity : ℕ) (o : Observed) (s : ChannelSink) : Type 0 where
  pub same_capacity : s.capacity ≡ capacity
  pub fits : length s.q ≤ capacity
  pub prefix : Prefix o
  pub order : s.broken ≡ false → o.accepted ≡ o.delivered ++ (in_flight s.phase ++ s.q)
  pub gone : s.broken ≡ true → s.phase ≡ returned
  pub counted : length o.lost < 2 ^ 64 → s.dropped ≡ length o.lost
  pub pending :
      length o.lost < 2 ^ 64
      → s.broken ≡ false
      → s.dropped_pending + report_of s.phase + reported o.notices ≡ length o.lost
  pub backlog : s.broken ≡ false → 0 < s.dropped_pending → capacity / 2 < length s.q
  pub done : s.phase ≡ returned → s.broken ≡ false → (s.q ≡ []) × (s.stop ≡ true)

pub take_in :
    (o : Observed) (ev : SecurityEvent)
    → Prefix o
    → (rest : List SecurityEvent) × (o.accepted ++ ev ∷ [] ≡ o.delivered ++ rest)
take_in o ev (rest, e) = (rest ++ ev ∷ [], rw e (append_assoc o.delivered rest (ev ∷ [])))

pub take_last :
    (o : Observed) (ev : SecurityEvent) (mid q : List SecurityEvent)
    → o.accepted ≡ o.delivered ++ (mid ++ q)
    → o.accepted ++ ev ∷ [] ≡ o.delivered ++ (mid ++ (q ++ ev ∷ []))
take_last o ev mid q e =
    rw (e, append_assoc o.delivered (mid ++ q) (ev ∷ []), append_assoc mid q (ev ∷ [])) refl

-- A thread that has not returned has not failed.
pub not_gone :
    (capacity : ℕ) (o : Observed) (s : ChannelSink)
    → Inv capacity o s
    → s.phase ≢ returned
    → s.broken ≡ false
not_gone capacity o s i running = elim (Bool-cases s.broken) [
  | inl b ↦ absurd (running (i.gone b))
  | inr b ↦ b
]
