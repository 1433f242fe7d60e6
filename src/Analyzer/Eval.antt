-- ===== src/Analyzer/Eval.antt =====
-- The evaluation harness: analyzer/src/eval.cpp. Eval/Memo is the client that saves calls, this file
-- runs a file of events and scores it. Latencies have an abstract type, as nothing is decided by them.
pub mod Memo
pub mod Gate
pub mod Options
pub mod Run
use pqc_edr.Base.{
  ℕ, ◌+◌, ◌*◌, ◌%◌, ◌^◌, Bool, true, false, not, ◌&&◌, ◌||◌, Option, none, some, List, [], ◌∷◌,
  ◌++◌, ltb, leb, ◌==◌, is_empty, if◌then◌else◌,
}
use pqc_edr.Base.Words.{Bytes}
use pqc_edr.Base.Text.{text, bytes_eq, starts_with}
use pqc_edr.Event.{SecurityEvent}
use pqc_edr.EventsFile.Tokens.{trim, find_after}
use pqc_edr.EventsFile.Parser.{Entry, event, delay, directive}
use pqc_edr.Analyzer.Alert.{Severity, info, low, medium, high, critical, rank, worse}
use pqc_edr.Analyzer.Libc.{Libc}
use pqc_edr.Analyzer.Llm.{LlmClient}
use pqc_edr.Analyzer.Prefilter.Paths.{basename_of}
use pqc_edr.Analyzer.Correlator.State.{Correlator, new_correlator}
use pqc_edr.Analyzer.Correlator.Maps.{find_entry, put_entry}
use pqc_edr.Analyzer.Pipeline.{Outcome, layer_to_string, classify_event}

-- `++m[k]` on a `std::map<std::string, uint64_t>`
unfoldable pub bump : Bytes → List (Bytes × ℕ) → List (Bytes × ℕ)
bump k m = elim (find_entry bytes_eq k m) [
  | none ↦ put_entry bytes_eq k 1 m
  | some n ↦ put_entry bytes_eq k ((n + 1) % 2 ^ 64) m
]

pub record Stats (Time : Type 0) : Type 0 where
  pub events : ℕ
  pub alerts : ℕ
  pub by_layer : List (Bytes × ℕ)
  pub by_source : List (Bytes × ℕ)
  pub fp_summary : List (Bytes × ℕ)
  pub haiku_calls : ℕ
  pub sonnet_calls : ℕ
  pub lat_rule_us : List Time
  pub lat_llm_us : List Time

pub record Scenario : Type 0 where
  pub name : Bytes
  pub known_miss : Bytes
  pub expect_max_sev : Bytes
  pub events : ℕ
  pub expect_alert : ℕ
  pub hit_alert : ℕ
  pub expect_drop : ℕ
  pub fp : ℕ
  pub max_sev : Severity
  pub any_alert : Bool
  pub layers : List (Bytes × ℕ)

abbrev pub new_scenario : Bytes → Scenario
new_scenario name = record {
  name = name;
  known_miss = [];
  expect_max_sev = [];
  events = 0;
  expect_alert = 0;
  hit_alert = 0;
  expect_drop = 0;
  fp = 0;
  max_sev = info;
  any_alert = false;
  layers = [];
}

unfoldable pub parse_sev : Bytes → Severity
parse_sev s =
    if bytes_eq s (text "low")
    then low
    else if bytes_eq s (text "medium")
    then medium
    else if bytes_eq s (text "high")
    then high
    else if bytes_eq s (text "critical")
    then critical
    else info

-- What stands before the last occurrence of a text.
unfoldable pub before_last : Bytes → Bytes → Option Bytes
before_last sub [] = if starts_with sub [] then some [] else none
before_last sub (c ∷ s) = elim (before_last sub s) [
  | some b ↦ some (c ∷ b)
  | none ↦ if starts_with sub (c ∷ s) then some [] else none
]

unfoldable pub basename_noext : Bytes → Bytes
basename_noext p =
    let b = basename_of p in elim (before_last (text ".events") b) [ none ↦ b | some name ↦ name ]

-- `tally`
unfoldable pub tally : {Time : Type 0} → Stats Time → Outcome → Time → Bool → Stats Time
tally st o us benign =
    let asked = not (o.haiku_calls + o.sonnet_calls == 0) in
    record {
      events = (st.events + 1) % 2 ^ 64;
      alerts = if o.alerted then (st.alerts + 1) % 2 ^ 64 else st.alerts;
      by_layer = bump (layer_to_string o.layer) st.by_layer;
      by_source = if o.alerted then bump o.alert_of.source st.by_source else st.by_source;
      fp_summary =
          if o.alerted && benign
          then bump o.alert_of.event_summary st.fp_summary
          else st.fp_summary;
      haiku_calls = (st.haiku_calls + o.haiku_calls) % 2 ^ 64;
      sonnet_calls = (st.sonnet_calls + o.sonnet_calls) % 2 ^ 64;
      lat_rule_us = if asked then st.lat_rule_us else st.lat_rule_us ++ us ∷ [];
      lat_llm_us = if asked then st.lat_llm_us ++ us ∷ [] else st.lat_llm_us;
    }

-- The callback of an attack file for an event, but for its `tally`.
unfoldable pub score : Scenario → Bytes → Outcome → Scenario
score sc expect o =
    let wants_alert = bytes_eq expect (text "alert") in
    let wants_drop = not wants_alert && bytes_eq expect (text "drop") in
    record sc {
      events = (sc.events + 1) % 2 ^ 64;
      layers = bump (layer_to_string o.layer) sc.layers;
      expect_alert = if wants_alert then (sc.expect_alert + 1) % 2 ^ 64 else sc.expect_alert;
      hit_alert = if wants_alert && o.alerted then (sc.hit_alert + 1) % 2 ^ 64 else sc.hit_alert;
      expect_drop = if wants_drop then (sc.expect_drop + 1) % 2 ^ 64 else sc.expect_drop;
      fp = if wants_drop && o.alerted then (sc.fp + 1) % 2 ^ 64 else sc.fp;
      any_alert = o.alerted || sc.any_alert;
      max_sev = if o.alerted then worse sc.max_sev o.alert_of.severity else sc.max_sev;
    }

-- The callback of an attack file for a directive. Without a ':' the position after it is the start of
-- the text for the severity, and its end for the known miss.
unfoldable pub directed : Scenario → Bytes → Scenario
directed sc d =
    let value = find_after (text ":") d in
    if starts_with (text "known-miss") d
    then record sc { known_miss = elim value [ none ↦ trim [] | some v ↦ trim v ] }
    else if starts_with (text "expect-max-severity") d
    then record sc { expect_max_sev = elim value [ none ↦ trim d | some v ↦ trim v ] }
    else sc

-- The two callbacks of a benign file, which ignores directives, and of an attack file.
abbrev pub on_benign : {Time : Type 0} → Stats Time → Bytes → Outcome → Time → Stats Time
on_benign st expect o us = tally st o us true

abbrev pub on_attack :
    {Time : Type 0} → Stats Time × Scenario → Bytes → Outcome → Time → Stats Time × Scenario
on_attack acc expect o us = (tally acc.0 o us false, score acc.1 expect o)

abbrev pub on_directive : {Time : Type 0} → Stats Time × Scenario → Bytes → Stats Time × Scenario
on_directive acc d = (acc.0, directed acc.1 d)

module _ {S A Time : Type 0} (libc : Libc) (llm : LlmClient S) (latency : SecurityEvent → Time)
    (take_event : A → Bytes → Outcome → Time → A) (take_directive : A → Bytes → A) where
  -- The callback of `run_file` over the entries that the parser gives, with the virtual clock.
  unfoldable pub run_entries : List Entry → ℕ → S → Correlator → A → A × S
  run_entries [] vclock s corr acc = (acc, s)
  run_entries (directive d ∷ es) vclock s corr acc =
      run_entries es vclock s corr (take_directive acc d)
  run_entries (delay ms ∷ es) vclock s corr acc =
      run_entries es ((vclock + ms * 1000000) % 2 ^ 64) s corr acc
  run_entries (event ev expect ∷ es) vclock s corr acc =
      let now = (vclock + 1000000) % 2 ^ 64 in
      let ev : SecurityEvent = record ev { ts_ns = now } in
      let done = classify_event libc llm ev s corr in
      run_entries es now done.0.1 done.1 (take_event acc expect done.0.0 (latency ev))

  -- `Correlator corr;` with the defaults of its constructor.
  abbrev pub run_file : List Entry → S → A → A × S
  run_file es s acc = run_entries es 1000000000 s (new_correlator 60000000000 3) acc

-- A scenario that the gate counts as missed, and `gate_fail` over all of them.
unfoldable pub is_missed : Scenario → Bool
is_missed sc = is_empty sc.known_miss && ltb (rank sc.max_sev) (rank high)

unfoldable pub gate_fail : List Scenario → Bool
gate_fail [] = false
gate_fail (sc ∷ scen) = is_missed sc || gate_fail scen

unfoldable pub exit_code : Bool → List Scenario → ℕ
exit_code gate scen = if gate && gate_fail scen then 1 else 0
