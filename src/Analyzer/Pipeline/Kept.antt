-- ===== src/Analyzer/Pipeline/Kept.antt =====
-- What every call of an LLM client keeps, the pipeline of analyzer/src/pipeline.cpp keeps.
use pqc_edr.Base.{inl, inr, List, [], ◌∷◌, ◌++◌, ◌==◌, Bool-cases}
use pqc_edr.Base.Words.{Bytes}
use pqc_edr.Base.Text.{text}
use pqc_edr.Event.{SecurityEvent, evt_agent_drop}
use pqc_edr.Analyzer.Libc.{Libc}
use pqc_edr.Analyzer.Llm.{LlmClient}
use pqc_edr.Analyzer.Prefilter.{
  PrefilterDecision, drop, escalate, alert, PrefilterResult, prefilter,
}
use pqc_edr.Analyzer.Prefilter.Summary.{event_summary}
use pqc_edr.Analyzer.Correlator.{observe}
use pqc_edr.Analyzer.Correlator.State.{Correlator, CorrelationHit}
use pqc_edr.Analyzer.Pipeline.{
  is_normal, correlation_deep, escalate_event, decide, decide_hit, classify_event, classify_all,
}

module _ {S : Type 0} (libc : Libc) (llm : LlmClient S) (P : S → Type 0)
    (fast : (s : S) (context : Bytes) → P s → P (llm.classify s context).1)
    (deep : (s : S) (context : Bytes) → P s → P (llm.deep_analyze s context).1) where
  hit_keeps :
      (d : PrefilterDecision) (ev : SecurityEvent) (summary : Bytes) (pr : PrefilterResult)
      (ch : CorrelationHit) (s : S)
      → P s
      → P (decide_hit libc llm d ev summary pr ch s).1
  unfolding decide_hit correlation_deep
  hit_keeps alert ev summary pr ch s p = p
  hit_keeps drop ev summary pr ch s p = deep s (summary ++ (text " | correlation: " ++ ch.reason)) p
  hit_keeps escalate ev summary pr ch s p =
      deep s (summary ++ (text " | correlation: " ++ ch.reason)) p

  escalation_keeps :
      (ev : SecurityEvent) (summary : Bytes) (s : S)
      → P s
      → P (escalate_event libc llm ev summary s).1
  unfolding escalate_event
  escalation_keeps ev summary s p =
      let p' = fast s summary p in
      elim (Bool-cases (is_normal (llm.classify s summary).0.verdict)) [
        | inl h ↦ rw h p'
        | inr h ↦ rw h (deep (llm.classify s summary).1 summary p')
      ]

  decision_keeps :
      (d : PrefilterDecision) (ev : SecurityEvent) (summary : Bytes) (pr : PrefilterResult) (s : S)
      → P s
      → P (decide libc llm d ev summary pr s).1
  unfolding decide
  decision_keeps alert ev summary pr s p = p
  decision_keeps drop ev summary pr s p = p
  decision_keeps escalate ev summary pr s p = escalation_keeps ev summary s p

  event_keeps :
      (ev : SecurityEvent) (s : S) (corr : Correlator)
      → P s
      → P (classify_event libc llm ev s corr).0.1
  unfolding classify_event
  event_keeps ev s corr p = elim (Bool-cases (ev.type == evt_agent_drop)) [
    | inl e ↦ rw e p
    | inr e ↦ elim (Bool-cases (observe libc corr ev).0.hit) [
      | inl h ↦
          rw (e, h)
            (hit_keeps (prefilter ev).decision ev (event_summary libc ev) (prefilter ev)
              (observe libc corr ev).0 s p)
      | inr h ↦
          rw (e, h)
            (decision_keeps (prefilter ev).decision ev (event_summary libc ev) (prefilter ev) s p)
    ]
  ]

  pub classify_all-keeps :
      (evs : List SecurityEvent) (s : S) (corr : Correlator)
      → P s
      → P (classify_all libc llm evs s corr).1
  unfolding classify_all
  classify_all-keeps [] s corr p = p
  classify_all-keeps (ev ∷ evs) s corr p =
      let r = classify_event libc llm ev s corr in
      classify_all-keeps evs r.0.1 r.1 (event_keeps ev s corr p)
