-- ===== src/Agent/RecordSink.antt =====
-- The sink that records events: `RecordSink` of agent/src/main.cpp.
-- The state is what has been written to the stream; `flushed` is what a flush has passed on.
pub mod Written
pub mod Replayed
pub mod Time
use pqc_edr.Base.{
  ℕ, ◌+◌, ◌-◌, ◌/◌, ◌%◌, ◌^◌, Bool, true, false, not, ◌&&◌, Option, none, some, List, [], ◌∷◌, ◌++◌,
  ltb, ◌==◌, is_empty, if◌then◌else◌,
}
use pqc_edr.Base.Words.{Bytes}
use pqc_edr.Base.Text.{text, decimal}
use pqc_edr.Event.{SecurityEvent}
use pqc_edr.EventsFile.{Numbers, format_line}

pub record RecordSink : Type 0 where
  pub out : Bytes
  pub flushed : Bytes
  pub n : ℕ
  pub last_ts : ℕ

-- The comment that a recording begins with, given what `strftime` wrote.
unfoldable pub recorded_at : Bytes → Bytes
recorded_at stamp =
    text "# recorded by agent --record at " ++ (stamp ++ text " (ts_ns 는 기록하지 않음 — 재생 시 시계 재부여)")

-- The constructor; `none` is its exception, where the file cannot be opened.
unfoldable pub open_recording : Bool → Bytes → Option RecordSink
open_recording opened stamp =
    if not opened
    then none
    else some (record { out = recorded_at stamp ++ 10 ∷ []; flushed = []; n = 0; last_ts = 0 })

-- The test for a delay line, and what the line says.
abbrev pub is_due : ℕ → ℕ → Bool
is_due last_ts ts_ns = not (last_ts == 0) && ltb ((last_ts + 10000000) % 2 ^ 64) ts_ns

abbrev pub gap_ms : ℕ → ℕ → ℕ
gap_ms last_ts ts_ns = (ts_ns + 2 ^ 64 - last_ts) % 2 ^ 64 / 1000000

unfoldable pub delay_text : ℕ → ℕ → Bytes
delay_text last_ts ts_ns =
    if is_due last_ts ts_ns
    then (text "delay " ++ decimal (gap_ms last_ts ts_ns)) ++ 10 ∷ []
    else []

module _ (lib : Numbers) where
  unfoldable pub handle : RecordSink → SecurityEvent → RecordSink
  handle s ev =
      let line = format_line lib ev in
      let out = s.out ++ (delay_text s.last_ts ev.ts_ns ++ (line ++ 10 ∷ [])) in
      let n = (s.n + 1) % 2 ^ 64 in
      if is_empty line then s else record {
        out = out;
        flushed = if n % 100 == 0 then out else s.flushed;
        n = n;
        last_ts = ev.ts_ns;
      }

  unfoldable pub handle_all : RecordSink → List SecurityEvent → RecordSink
  handle_all s [] = s
  handle_all s (ev ∷ evs) = handle_all (handle s ev) evs

-- The destructor.
unfoldable pub close : RecordSink → RecordSink
close s = record s { flushed = s.out }
