-- ===== src/Agent/ChannelSink.antt =====
-- The sink that forwards events to the analyzer: `ChannelSink` of agent/src/main.cpp.
-- Two threads share it. What a thread does under the lock is one function here, and so is one call of
-- `send_one`, whose result is the environment's. `Reaches` puts them in every order that the lock allows.
pub mod Invariant
pub mod Handled
pub mod Sent
pub mod Kept
pub mod Loss
pub mod Drain
use pqc_edr.Base.{
  ℕ, zero, suc, ◌+◌, ◌-◌, ◌/◌, ◌^◌, ◌%◌, max, ◌≡◌, ◌≢◌, Bool, true, false, not, ◌&&◌, ◌||◌, Option,
  none, some, List, [], ◌∷◌, ◌++◌, length, take, ltb, leb, ◌==◌, is_empty, if◌then◌else◌, replicate,
}
use pqc_edr.Base.Words.{Bytes}
use pqc_edr.Base.Text.{text}
use pqc_edr.Event.{SecurityEvent, Ancestor, evt_agent_drop, ancestors, comm_len, filename_len}

-- Where the sending thread is in `run`: at the wait, before the send of an event with what it has to
-- report after it, before the send of a notice, or returned.
pub data Phase : Type 0 where
  waiting : Phase
  sending : SecurityEvent → ℕ → ℕ → Phase
  reporting : ℕ → ℕ → Phase
  returned : Phase

pub record ChannelSink : Type 0 where
  pub capacity : ℕ
  pub q : List SecurityEvent
  pub stop : Bool
  pub broken : Bool
  pub dropped : ℕ
  pub dropped_pending : ℕ
  pub peak : ℕ
  pub sent : ℕ
  pub phase : Phase

-- The constructor, which starts the thread.
abbrev pub new_sink : ℕ → ChannelSink
new_sink capacity = record {
  capacity = capacity;
  q = [];
  stop = false;
  broken = false;
  dropped = 0;
  dropped_pending = 0;
  peak = 0;
  sent = 0;
  phase = waiting;
}

unfoldable pub handle : ChannelSink → SecurityEvent → ChannelSink
handle s ev =
    if s.broken
    then s
    else if leb s.capacity (length s.q)
    then record s {
      dropped = (s.dropped + 1) % 2 ^ 64;
      dropped_pending = (s.dropped_pending + 1) % 2 ^ 64;
    }
    else record s { q = s.q ++ ev ∷ []; peak = max s.peak (length (s.q ++ ev ∷ [])) }

-- The destructor, before it joins the thread.
unfoldable pub request_stop : ChannelSink → ChannelSink
request_stop s = record s { stop = true }

-- The part of `run` under the lock, once the wait is over.
unfoldable pub next_event : ChannelSink → ChannelSink
next_event s = next s.q
  where
    next : List SecurityEvent → ChannelSink
    next [] = record s { phase = returned }
    next (ev ∷ rest) =
        if ltb 0 s.dropped_pending && leb (length rest) (s.capacity / 2)
        then record s {
          q = rest;
          dropped_pending = 0;
          phase = sending ev s.dropped_pending s.dropped;
        }
        else record s { q = rest; phase = sending ev 0 0 }

-- The wait's condition.
abbrev pub may_wake : ChannelSink → Bool
may_wake s = s.stop || not (is_empty s.q)

-- What `send_one` does to the sink, given whether the record could be sent.
unfoldable pub send_one : Bool → ChannelSink → ChannelSink
send_one ok s =
    if ok
    then record s { sent = (s.sent + 1) % 2 ^ 64 }
    else record s { broken = true; phase = returned }

-- The notice of drops, given what the process id and the clock are.
unfoldable pub make_drop_notice : ℕ → ℕ → ℕ → ℕ → ChannelSink → SecurityEvent
make_drop_notice pid now dropped dropped_total s = record {
  type = evt_agent_drop;
  pid = pid;
  ppid = 0;
  ts_ns = now;
  comm = text "agent" ++ replicate (comm_len - 5) 0;
  anc = replicate ancestors (record { pid = 0; comm = replicate comm_len 0 });
  execve = record { filename = replicate filename_len 0 };
  tcp = record { daddr = 0; dport = 0; family = 0 };
  drop = record { dropped = dropped; dropped_total = dropped_total; sent_total = s.sent };
  file = record { path = replicate filename_len 0; access = 0; ino = 0; dev = 0 };
}

-- The rest of the loop's body after a send that succeeded.
abbrev pub after_event : ℕ → ℕ → Phase
after_event report report_total = if ltb 0 report then reporting report report_total else waiting

-- What an observer of the sink has seen: the events that it took and those that it dropped, in order of
-- arrival, the events that were sent, and the drops that the notices sent so far name in all.
pub record Observed : Type 0 where
  pub accepted : List SecurityEvent
  pub lost : List SecurityEvent
  pub delivered : List SecurityEvent
  pub notices : List SecurityEvent

-- A call of `handle` found room.
abbrev pub has_room : ChannelSink → Bool
has_room s = not s.broken && ltb (length s.q) s.capacity

abbrev pub is_full : ChannelSink → Bool
is_full s = not s.broken && leb s.capacity (length s.q)

abbrev pub observed_handle : ChannelSink → SecurityEvent → Observed → Observed
observed_handle s ev o =
    if has_room s
    then record o { accepted = o.accepted ++ ev ∷ [] }
    else if is_full s
    then record o { lost = o.lost ++ ev ∷ [] }
    else o

-- The states that the threads can reach. The thread of the callback is the one that destroys the sink,
-- so `handle` does not run after `request_stop`.
pub data Reaches (capacity : ℕ) : Observed → ChannelSink → Type 0 where
  start :
      Reaches capacity
        (record { accepted = []; lost = []; delivered = []; notices = [] })
        (new_sink capacity)
  handled :
      (o : Observed) (s : ChannelSink) (ev : SecurityEvent)
      → Reaches capacity o s
      → s.stop ≡ false
      → Reaches capacity (observed_handle s ev o) (handle s ev)
  stopped :
      (o : Observed) (s : ChannelSink) → Reaches capacity o s → Reaches capacity o (request_stop s)
  woken :
      (o : Observed) (s : ChannelSink)
      → Reaches capacity o s
      → s.phase ≡ waiting
      → may_wake s ≡ true
      → Reaches capacity o (next_event s)
  sent_event :
      (o : Observed) (s : ChannelSink) (ev : SecurityEvent) (report total : ℕ)
      → Reaches capacity o s
      → s.phase ≡ sending ev report total
      → Reaches capacity
          (record o { delivered = o.delivered ++ ev ∷ [] })
          (record (send_one true s) { phase = after_event report total })
  sent_notice :
      (o : Observed) (s : ChannelSink) (pid now report total : ℕ)
      → Reaches capacity o s
      → s.phase ≡ reporting report total
      → Reaches capacity
          (record o { notices = o.notices ++ make_drop_notice pid now report total s ∷ [] })
          (record (send_one true s) { phase = waiting })
  failed_event :
      (o : Observed) (s : ChannelSink) (ev : SecurityEvent) (report total : ℕ)
      → Reaches capacity o s
      → s.phase ≡ sending ev report total
      → Reaches capacity o (send_one false s)
  failed_notice :
      (o : Observed) (s : ChannelSink) (report total : ℕ)
      → Reaches capacity o s
      → s.phase ≡ reporting report total
      → Reaches capacity o (send_one false s)
