-- ===== src/Agent/RecordSink/Time.antt =====
-- How far the delays of a recording keep the time: `RecordSink` of agent/src/main.cpp.
use pqc_edr.Base.{
  ℕ, ◌+◌, ◌*◌, ◌-◌, ◌^◌, ◌<◌, ◌≤◌, ◌≡◌, true, false, Bool-cases, inl, inr, some, List, [], ◌∷◌, All,
  length, arith,
}
use pqc_edr.Base.Words.{Bytes}
use pqc_edr.Event.{SecurityEvent}
use pqc_edr.EventsFile.{Numbers}
use pqc_edr.EventsFile.Parser.{Entry, event, delay, directive, getlines, parse}
use pqc_edr.EventsFile.Fields.{HexLaws}
use pqc_edr.EventsFile.Words.{NoNewline}
use pqc_edr.EventsFile.Ancestry.{DecimalLaws}
use pqc_edr.EventsFile.Recordable.{IsRecordable}
use pqc_edr.Agent.RecordSink.{RecordSink, open_recording, is_due, gap_ms, handle_all, close}
use pqc_edr.Agent.RecordSink.Written.{entries_of, parse_recording}

-- The milliseconds that a replay of the entries waits.
abbrev pub waited_ms : List Entry → ℕ
waited_ms [] = 0
waited_ms (delay ms ∷ es) = ms + waited_ms es
waited_ms (event ev expect ∷ es) = waited_ms es
waited_ms (directive d ∷ es) = waited_ms es

-- Times that do not decrease, and do not come near 2^64.
abbrev pub AreOrdered : ℕ → List SecurityEvent → Type 0
AreOrdered last [] = Unit
AreOrdered last (ev ∷ evs) =
    (last ≤ ev.ts_ns) × (ev.ts_ns + 10000000 < 2 ^ 64) × AreOrdered ev.ts_ns evs

abbrev pub end_time : ℕ → List SecurityEvent → ℕ
end_time last [] = last
end_time last (ev ∷ evs) = end_time ev.ts_ns evs

due_gap :
    (last ts : ℕ)
    → last ≤ ts
    → ts + 10000000 < 2 ^ 64
    → is_due last ts ≡ true
    → (gap_ms last ts * 1000000 + last ≤ ts) × (ts < last + gap_ms last ts * 1000000 + 10000000)
due_gap last ts le fits due = omega arith

soon_gap :
    (last ts : ℕ)
    → 0 < last
    → last ≤ ts
    → ts + 10000000 < 2 ^ 64
    → is_due last ts ≡ false
    → ts ≤ last + 10000000
soon_gap last ts pos le fits soon = ground arith

module _ (lib : Numbers) (hex : HexLaws lib) (numbers : DecimalLaws lib) where
  kept :
      (evs : List SecurityEvent) (last : ℕ)
      → 0 < last
      → last + 10000000 < 2 ^ 64
      → AreOrdered last evs
      → let ms = waited_ms (entries_of lib hex numbers last evs) in
        (ms * 1000000 + last ≤ end_time last evs)
        × (end_time last evs ≤ last + ms * 1000000 + 10000000 * length evs)
  kept [] last pos fits o = (omega arith, omega arith)
  kept (ev ∷ evs) last pos fits (le, fits', o) =
      let rest = kept evs ev.ts_ns (omega arith) fits' o in
      elim (Bool-cases (is_due last ev.ts_ns)) [
        | inl due ↦
            let gap = due_gap last ev.ts_ns le fits' due in rw due (omega (arith, gap, rest))
        | inr soon ↦
            let gap = soon_gap last ev.ts_ns pos le fits' soon in rw soon (omega (arith, gap, rest))
      ]

  -- A recording keeps the time to ten milliseconds for each event: the delays that its parser reads add
  -- up to no more than the time from the first event to the last, and fall short of it by at most ten
  -- milliseconds for each event after the first. The times of the events do not decrease, are not zero and
  -- are at least ten milliseconds below 2^64; the text of the date in the first line has no newline. Each event is an execution, an IPv4 connection or an opening of a file with an access of the four
  -- kinds, with its ancestors from the first entry on, as the kernel fills them, and numbers of the sizes that
  -- common/event.h declares. The names of the process and its ancestors and the executed file are not empty;
  -- they and the opened path leave room for a NUL and have no vertical tab and no form feed; no name of an
  -- ancestor has a bar, and no path is "-". What the libraries read and print of numbers and
  -- addresses is as `HexLaws` and `DecimalLaws` say.
  pub recorded_time :
      (stamp : Bytes) (s : RecordSink) (ev : SecurityEvent) (evs : List SecurityEvent)
      → All NoNewline stamp
      → open_recording true stamp ≡ some s
      → All IsRecordable (ev ∷ evs)
      → 0 < ev.ts_ns
      → ev.ts_ns + 10000000 < 2 ^ 64
      → AreOrdered ev.ts_ns evs
      → let ms =
          waited_ms (parse lib 0 (getlines (close (handle_all lib s (ev ∷ evs))).flushed)).0 in
        (ms * 1000000 ≤ end_time ev.ts_ns evs - ev.ts_ns)
        × (end_time ev.ts_ns evs - ev.ts_ns ≤ ms * 1000000 + 10000000 * length evs)
  recorded_time stamp s ev evs one_line h rs pos fits o =
      let (low, high) = kept evs ev.ts_ns pos fits o in
      rw (parse_recording lib hex numbers stamp s (ev ∷ evs) one_line h rs)
        (omega (arith, low, high))
