-- ===== src/Analyzer/Pipeline.antt =====
-- One event through the analyzer: analyzer/src/pipeline.cpp and pipeline.h.
-- A call returns the outcome, the state of the LLM client and the correlator.
pub mod Decisions
pub mod Calls
pub mod Chain
pub mod Kept
use pqc_edr.Base.{ℕ, ◌+◌, ◌^◌, ◌%◌, Bool, true, false, List, [], ◌∷◌, ◌++◌, ◌==◌, if◌then◌else◌}
use pqc_edr.Base.Words.{Bytes}
use pqc_edr.Base.Text.{text, c_string, decimal}
use pqc_edr.Event.{SecurityEvent, evt_agent_drop}
use pqc_edr.Analyzer.Alert.{
  Verdict, normal, suspicious, malicious, unknown, Severity, medium, worse, Alert, no_alert,
}
use pqc_edr.Analyzer.Libc.{Libc, snprintf}
use pqc_edr.Analyzer.Llm.{Classification, LlmClient}
use pqc_edr.Analyzer.Prefilter.{
  PrefilterDecision, drop, escalate, alert, PrefilterResult, prefilter,
}
use pqc_edr.Analyzer.Prefilter.Summary.{event_summary}
use pqc_edr.Analyzer.Correlator.{observe}
use pqc_edr.Analyzer.Correlator.State.{Correlator, CorrelationHit}

pub data Layer : Type 0 where
  drop_layer rule rule_correlation correlation_sonnet haiku_normal sonnet agent_drop : Layer

unfoldable pub layer_to_string : Layer → Bytes
layer_to_string drop_layer = text "drop"
layer_to_string rule = text "rule"
layer_to_string rule_correlation = text "rule+correlation"
layer_to_string correlation_sonnet = text "correlation+sonnet"
layer_to_string haiku_normal = text "haiku-normal"
layer_to_string sonnet = text "sonnet"
layer_to_string agent_drop = text "agent-drop"

pub record Outcome : Type 0 where
  pub layer : Layer
  pub alerted : Bool
  pub alert_of : Alert
  pub log_line : Bytes
  pub haiku_calls : ℕ
  pub sonnet_calls : ℕ
  pub input_tokens : ℕ
  pub output_tokens : ℕ

-- `Outcome o;`
abbrev pub new_outcome : Outcome
new_outcome = record {
  layer = drop_layer;
  alerted = false;
  alert_of = no_alert;
  log_line = text "";
  haiku_calls = 0;
  sonnet_calls = 0;
  input_tokens = 0;
  output_tokens = 0;
}

unfoldable pub make_alert : SecurityEvent → Bytes → Verdict → Severity → Bytes → Bytes → Alert
make_alert ev summary v s source reason = record {
  verdict = v;
  severity = s;
  source = source;
  reason = reason;
  event_summary = summary;
  pid = ev.pid;
  comm = c_string ev.comm;
}

unfoldable pub account : Outcome → Classification → Bool → Outcome
account o c is_sonnet = record {
  layer = o.layer;
  alerted = o.alerted;
  alert_of = o.alert_of;
  log_line = o.log_line;
  haiku_calls = if is_sonnet then o.haiku_calls else o.haiku_calls + 1;
  sonnet_calls = if is_sonnet then o.sonnet_calls + 1 else o.sonnet_calls;
  input_tokens = (o.input_tokens + c.input_tokens) % 2 ^ 64;
  output_tokens = (o.output_tokens + c.output_tokens) % 2 ^ 64;
}

-- `o.layer = …; o.alerted = true; o.alert = …;`
abbrev pub raise : Outcome → Layer → Alert → Outcome
raise o l a = record o { layer = l; alerted = true; alert_of = a }

abbrev pub drop_notice_reason : SecurityEvent → Bytes
drop_notice_reason ev = snprintf 240 (
    text "agent 백프레셔 드롭: 이 구간에서 "
    ++ (decimal ev.drop.dropped
        ++ (text "개 이벤트 유실 (누적 "
            ++ (decimal ev.drop.dropped_total
                ++ (text ", 전송 " ++ (decimal ev.drop.sent_total ++ text ") — 탐지 공백 가능"))))))

-- A sequence proves more than one event: 'normal' and 'unknown' are not taken over.
unfoldable pub correlation_verdict : Verdict → Verdict
correlation_verdict normal = suspicious
correlation_verdict suspicious = suspicious
correlation_verdict malicious = malicious
correlation_verdict unknown = suspicious

unfoldable pub is_normal : Verdict → Bool
is_normal normal = true
is_normal suspicious = false
is_normal malicious = false
is_normal unknown = false

module _ {S : Type 0} (libc : Libc) (llm : LlmClient S) where
  -- The correlator has a hit, and the rules have none.
  unfoldable pub correlation_deep : SecurityEvent → Bytes → CorrelationHit → S → Outcome × S
  correlation_deep ev summary ch s =
      let asked = llm.deep_analyze s (summary ++ (text " | correlation: " ++ ch.reason)) in
      let c = asked.0 in
      (
        raise (account new_outcome c true) correlation_sonnet (
            make_alert ev summary (correlation_verdict c.verdict) (worse c.severity ch.severity)
              (ch.rule ++ text "+sonnet") (ch.reason ++ (text " / " ++ c.reason))),
        asked.1,
      )

  -- Haiku, and Sonnet unless Haiku says normal.
  unfoldable pub escalate_event : SecurityEvent → Bytes → S → Outcome × S
  escalate_event ev summary s =
      let first = llm.classify s summary in
      let h = first.0 in
      let o = account new_outcome h false in
      let second = llm.deep_analyze first.1 summary in
      let c = second.0 in
      if is_normal h.verdict
      then (
        record o {
          layer = haiku_normal;
          log_line =
              text "  [llm:"
              ++ (h.model
                  ++ (text " normal] "
                      ++ (summary
                          ++ (text "  ("
                              ++ (h.reason ++ (text ", conf=" ++ (h.confidence ++ text ")")))))));
        },
        first.1,
      )
      else (
        raise (account o c true) sonnet
            (make_alert ev summary c.verdict c.severity (text "sonnet") c.reason),
        second.1,
      )

  -- `switch (pr.decision)`
  unfoldable pub decide :
      PrefilterDecision → SecurityEvent → Bytes → PrefilterResult → S → Outcome × S
  decide drop ev summary pr s = (
    record new_outcome {
      log_line = text "  [drop]  " ++ (summary ++ (text "  (" ++ (pr.reason ++ text ")")));
    },
    s,
  )
  decide alert ev summary pr s = (
    raise new_outcome rule (make_alert ev summary malicious pr.severity (text "rule") pr.reason),
    s,
  )
  decide escalate ev summary pr s = escalate_event ev summary s

  -- `if (ch.hit) { … }`
  unfoldable pub decide_hit :
      PrefilterDecision → SecurityEvent → Bytes → PrefilterResult → CorrelationHit → S → Outcome × S
  decide_hit alert ev summary pr ch s = (
    raise new_outcome rule_correlation (
        make_alert ev summary malicious (worse pr.severity ch.severity) (text "rule+" ++ ch.rule)
          (pr.reason ++ (text "; " ++ ch.reason))),
    s,
  )
  decide_hit drop ev summary pr ch s = correlation_deep ev summary ch s
  decide_hit escalate ev summary pr ch s = correlation_deep ev summary ch s

  unfoldable pub classify_event : SecurityEvent → S → Correlator → (Outcome × S) × Correlator
  classify_event ev s corr =
      let summary = event_summary libc ev in
      let notice =
        raise new_outcome agent_drop
          (make_alert ev summary unknown medium (text "agent") (drop_notice_reason ev)) in
      let pr = prefilter ev in
      let seen = observe libc corr ev in
      if ev.type == evt_agent_drop
      then ((notice, s), corr)
      else if seen.0.hit
      then (decide_hit pr.decision ev summary pr seen.0 s, seen.1)
      else (decide pr.decision ev summary pr s, seen.1)

  -- The loop of the daemon: the outcomes in order, and the state after them.
  unfoldable pub classify_all : List SecurityEvent → S → Correlator → List Outcome × S × Correlator
  classify_all [] s corr = ([], s, corr)
  classify_all (ev ∷ evs) s corr =
      let r = classify_event ev s corr in
      let rest = classify_all evs r.0.1 r.1 in (r.0.0 ∷ rest.0, rest.1, rest.2)
