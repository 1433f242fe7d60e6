-- ===== src/Analyzer/Pipeline/Calls.antt =====
-- The cost of an event: the LLM calls that `classify_event` of analyzer/src/pipeline.cpp makes and counts.
use pqc_edr.Base.{ℕ, ◌+◌, ◌≡◌, refl, inl, inr, ◌==◌, arith, Bool-cases}
use pqc_edr.Base.Words.{Bytes}
use pqc_edr.Event.{SecurityEvent, evt_agent_drop}
use pqc_edr.Analyzer.Libc.{Libc}
use pqc_edr.Analyzer.Llm.{LlmClient}
use pqc_edr.Analyzer.Prefilter.{
  PrefilterDecision, drop, escalate, alert, PrefilterResult, prefilter,
}
use pqc_edr.Analyzer.Prefilter.Summary.{event_summary}
use pqc_edr.Analyzer.Correlator.{observe}
use pqc_edr.Analyzer.Correlator.State.{Correlator, CorrelationHit}
use pqc_edr.Analyzer.Pipeline.{
  Layer, drop_layer, rule, rule_correlation, correlation_sonnet, haiku_normal, sonnet, agent_drop,
  Outcome, account, is_normal, correlation_deep, escalate_event, decide, decide_hit, classify_event,
}

-- An LLM client that also counts the calls it gets, those of Haiku and those of Sonnet.
unfoldable pub counting : {S : Type 0} → LlmClient S → LlmClient (S × ℕ × ℕ)
counting llm = record {
  classify = λ s context. let r = llm.classify s.0 context in (r.0, (r.1, s.1 + 1, s.2));
  deep_analyze = λ s context. let r = llm.deep_analyze s.0 context in (r.0, (r.1, s.1, s.2 + 1));
}

-- The calls to Haiku and to Sonnet that belong to a layer.
abbrev pub calls_of : Layer → ℕ × ℕ
calls_of drop_layer = (0, 0)
calls_of rule = (0, 0)
calls_of rule_correlation = (0, 0)
calls_of correlation_sonnet = (0, 1)
calls_of haiku_normal = (1, 0)
calls_of sonnet = (1, 1)
calls_of agent_drop = (0, 0)

module _ {S : Type 0} (libc : Libc) (llm : LlmClient S) where
  -- The counters of the outcome say what the client was asked, and the layer fixes both.
  abbrev pub IsCounted : S × ℕ × ℕ → Outcome × (S × ℕ × ℕ) → Type 0
  IsCounted s r =
      (r.1.1 ≡ s.1 + r.0.haiku_calls)
      × (r.1.2 ≡ s.2 + r.0.sonnet_calls)
      × ((r.0.haiku_calls, r.0.sonnet_calls) ≡ calls_of r.0.layer)

  deep-IsCounted :
      (ev : SecurityEvent) (summary : Bytes) (ch : CorrelationHit) (s : S × ℕ × ℕ)
      → IsCounted s (correlation_deep libc (counting llm) ev summary ch s)
  unfolding correlation_deep account counting
  deep-IsCounted ev summary ch s = (omega arith, omega arith, refl)

  hit-IsCounted :
      (d : PrefilterDecision) (ev : SecurityEvent) (summary : Bytes) (pr : PrefilterResult)
      (ch : CorrelationHit) (s : S × ℕ × ℕ)
      → IsCounted s (decide_hit libc (counting llm) d ev summary pr ch s)
  unfolding decide_hit
  hit-IsCounted alert ev summary pr ch s = (omega arith, omega arith, refl)
  hit-IsCounted drop ev summary pr ch s = deep-IsCounted ev summary ch s
  hit-IsCounted escalate ev summary pr ch s = deep-IsCounted ev summary ch s

  escalate-IsCounted :
      (ev : SecurityEvent) (summary : Bytes) (s : S × ℕ × ℕ)
      → IsCounted s (escalate_event libc (counting llm) ev summary s)
  unfolding escalate_event account counting
  escalate-IsCounted ev summary s =
      elim (Bool-cases (is_normal (llm.classify s.0 summary).0.verdict)) [
        | inl e ↦ rw e (omega arith, omega arith, refl)
        | inr e ↦ rw e (omega arith, omega arith, refl)
      ]

  decide-IsCounted :
      (d : PrefilterDecision) (ev : SecurityEvent) (summary : Bytes) (pr : PrefilterResult)
      (s : S × ℕ × ℕ)
      → IsCounted s (decide libc (counting llm) d ev summary pr s)
  unfolding decide
  decide-IsCounted drop ev summary pr s = (omega arith, omega arith, refl)
  decide-IsCounted alert ev summary pr s = (omega arith, omega arith, refl)
  decide-IsCounted escalate ev summary pr s = escalate-IsCounted ev summary s

  -- The counters of an outcome are the calls that the LLM client really gets for the event, and its layer
  -- fixes them: none for a drop, a rule or a notice, one of Haiku where it says normal, both where it does
  -- not, and one of Sonnet for a correlation that no rule backs. So each model is asked at most once.
  pub calls-counted :
      (ev : SecurityEvent) (s : S × ℕ × ℕ) (corr : Correlator)
      → let r = (classify_event libc (counting llm) ev s corr).0 in
        (r.1.1 ≡ s.1 + r.0.haiku_calls)
        × (r.1.2 ≡ s.2 + r.0.sonnet_calls)
        × ((r.0.haiku_calls, r.0.sonnet_calls) ≡ calls_of r.0.layer)
  unfolding classify_event
  calls-counted ev s corr = elim (Bool-cases (ev.type == evt_agent_drop)) [
    | inl e ↦ rw e (omega arith, omega arith, refl)
    | inr e ↦ elim (Bool-cases (observe libc corr ev).0.hit) [
      | inl h ↦
          rw (e, h)
            (hit-IsCounted (prefilter ev).decision ev (event_summary libc ev) (prefilter ev)
              (observe libc corr ev).0 s)
      | inr h ↦
          rw (e, h)
            (decide-IsCounted (prefilter ev).decision ev (event_summary libc ev) (prefilter ev) s)
    ]
  ]
