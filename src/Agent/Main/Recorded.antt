-- ===== src/Agent/Main/Recorded.antt =====
-- The recording of a run of the agent, agent/src/main.cpp, and its replay.
use pqc_edr.Base.{
  ℕ, ◌≤◌, ◌≡◌, ◌++◌, ◌∙◌, refl, sym, ap, true, false, ltb, Bool, some, none, List, [], ◌∷◌, All,
  length, map, arith,
}
use pqc_edr.Base.Words.{Bytes}
use pqc_edr.Event.{SecurityEvent}
use pqc_edr.EventsFile.{Numbers}
use pqc_edr.EventsFile.Fields.{HexLaws}
use pqc_edr.EventsFile.Words.{NoNewline}
use pqc_edr.EventsFile.Ancestry.{DecimalLaws}
use pqc_edr.EventsFile.Recordable.{IsRecordable}
use pqc_edr.Agent.Replay.{Clock, Replay, run_replay}
use pqc_edr.Agent.RecordSink.{RecordSink, open_recording, handle, handle_all, close}
use pqc_edr.Agent.RecordSink.Replayed.{AreAgain, keep, record_replay}
use pqc_edr.Agent.Main.{
  Sample, Poll, polled, interrupted, failed, on_event, deliver, poll_loop, run_collector,
}

abbrev pub IsWhole : ℕ → Sample → Type 0
IsWhole event_size x = event_size ≤ x.0

-- The samples that the collector hands over until the loop ends, and the events in them.
abbrev pub handed : List (Bool × Poll) → List Sample
handed [] = []
handed ((true, p) ∷ more) = []
handed ((false, polled xs) ∷ more) = xs ++ handed more
handed ((false, interrupted xs) ∷ more) = xs
handed ((false, failed xs) ∷ more) = xs

abbrev pub events_in : List Sample → List SecurityEvent
events_in xs = map (λ (x : Sample). x.1) xs

module _ (lib : Numbers) where
  deliver-whole :
      (event_size : ℕ) (xs : List Sample) (s : RecordSink)
      → All (IsWhole event_size) xs
      → deliver (handle lib) event_size s xs ≡ handle_all lib s (events_in xs)
  unfolding deliver on_event handle_all
  deliver-whole event_size [] s h = refl
  deliver-whole event_size ((size, ev) ∷ xs) s (whole, h) =
      let fits : ltb size event_size ≡ false = ground arith in
      rw fits (deliver-whole event_size xs (handle lib s ev) h)

  deliver-append :
      (event_size : ℕ) (xs ys : List Sample) (s : RecordSink)
      → deliver (handle lib) event_size s (xs ++ ys)
        ≡ deliver (handle lib) event_size (deliver (handle lib) event_size s xs) ys
  unfolding deliver
  deliver-append event_size [] ys s = refl
  deliver-append event_size (x ∷ xs) ys s =
      deliver-append event_size xs ys (on_event (handle lib) event_size s x)

  poll_loop-handed :
      (event_size : ℕ) (polls : List (Bool × Poll)) (s : RecordSink)
      → poll_loop (handle lib) event_size polls s ≡ deliver (handle lib) event_size s (handed polls)
  unfolding poll_loop deliver
  poll_loop-handed event_size [] s = refl
  poll_loop-handed event_size ((true, p) ∷ more) s = refl
  poll_loop-handed event_size ((false, polled xs) ∷ more) s =
      poll_loop-handed event_size more (deliver (handle lib) event_size s xs)
      ∙ rw (deliver-append event_size xs (handed more) s) refl
  poll_loop-handed event_size ((false, interrupted xs) ∷ more) s = refl
  poll_loop-handed event_size ((false, failed xs) ∷ more) s = refl

-- A recorded run is replayed whole: of an agent that records what the collector gives, also of what is
-- still in the ring buffer when a signal or an error ends the loop, the closed recording is played without
-- a fault, every event is counted, and the sink of the replay is given events in the same order with the
-- same type, process, parent, name, ancestors with their names, and fields of the event's own kind: the
-- file, the address with port and family, or the path with access, inode and device. The samples are
-- whole, and the text of the date in the first line has no newline. Each event is an execution, an IPv4 connection or an opening of a file with an access of the four
-- kinds, with its ancestors from the first entry on, as the kernel fills them, and numbers of the sizes that
-- common/event.h declares. The names of the process and its ancestors and the executed file are not empty;
-- they and the opened path leave room for a NUL and have no vertical tab and no form feed; no name of an
-- ancestor has a bar, and no path is "-". What the libraries read and print of numbers and
-- addresses is as `HexLaws` and `DecimalLaws` say.
pub recorded_run_replays :
    (lib : Numbers) (hex : HexLaws lib) (numbers : DecimalLaws lib) (clock : Clock)
    (w : clock.World) (stamp : Bytes) (s : RecordSink) (event_size : ℕ) (polls : List (Bool × Poll))
    (left : List Sample)
    → All NoNewline stamp
    → open_recording true stamp ≡ some s
    → All (IsWhole event_size) (handed polls ++ left)
    → All IsRecordable (events_in (handed polls ++ left))
    → (r : Replay (List SecurityEvent) clock.World) × (run_replay clock keep lib
          (some (close (run_collector (handle lib) event_size polls left s)).flushed)
          []
          w
        ≡ some r)
      × AreAgain (events_in (handed polls ++ left)) r.sink
      × (r.fault ≡ none)
      × (r.n ≡ length (events_in (handed polls ++ left)))
unfolding run_collector
recorded_run_replays lib hex numbers clock w stamp s event_size polls left one_line opened whole
      rs =
    let all = handed polls ++ left in
    let ran : run_collector (handle lib) event_size polls left s
        ≡ handle_all lib s (events_in all) =
      ap (λ (t : RecordSink). deliver (handle lib) event_size t left)
        (poll_loop-handed lib event_size polls s)
      ∙ sym (deliver-append lib event_size (handed polls) left s)
      ∙ deliver-whole lib event_size all s whole in
    rw ran (record_replay lib hex numbers clock w stamp s (events_in all) one_line opened rs)
