-- ===== src/Analyzer/Pipeline/Decisions.antt =====
-- What one event can lead to: `classify_event` of analyzer/src/pipeline.cpp, for every LLM client.
use pqc_edr.Base.{
  ◌≤◌, ◌≡◌, ◌≢◌, ◌↔◌, ◌⊎◌, refl, inl, inr, true, false, ◌++◌, ◌==◌, arith, Bool-cases,
}
use pqc_edr.Base.Words.{Bytes}
use pqc_edr.Base.Text.{text}
use pqc_edr.Event.{SecurityEvent, evt_agent_drop}
use pqc_edr.Analyzer.Alert.{Verdict, normal, suspicious, malicious, unknown, Severity, worse, rank}
use pqc_edr.Analyzer.Libc.{Libc}
use pqc_edr.Analyzer.Llm.{LlmClient}
use pqc_edr.Analyzer.Prefilter.{
  PrefilterDecision, drop, escalate, alert, PrefilterResult, prefilter,
}
use pqc_edr.Analyzer.Prefilter.Summary.{event_summary}
use pqc_edr.Analyzer.Correlator.{observe}
use pqc_edr.Analyzer.Correlator.State.{Correlator, CorrelationHit}
use pqc_edr.Analyzer.Pipeline.{
  Outcome, make_alert, account, correlation_verdict, is_normal, correlation_deep, escalate_event,
  decide, decide_hit, classify_event,
}

worse_right : (a b : Severity) → rank b ≤ rank (worse a b)
worse_right a b = ground arith

evidence_stands :
    (v : Verdict) → (correlation_verdict v ≡ suspicious) ⊎ (correlation_verdict v ≡ malicious)
unfolding correlation_verdict
evidence_stands normal = inl refl
evidence_stands suspicious = inl refl
evidence_stands malicious = inr refl
evidence_stands unknown = inl refl

is_normal_iff : (v : Verdict) → (is_normal v ≡ true) ↔ (v ≡ normal)
unfolding is_normal
is_normal_iff normal = ground arith
is_normal_iff suspicious = ground arith
is_normal_iff malicious = ground arith
is_normal_iff unknown = ground arith

module _ {S : Type 0} (libc : Libc) (llm : LlmClient S) where
  -- An alert that the LLM could not weaken.
  abbrev StandsFor : CorrelationHit → Outcome → Type 0
  StandsFor ch o =
      (o.alerted ≡ true)
      × ((o.alert_of.verdict ≡ suspicious) ⊎ (o.alert_of.verdict ≡ malicious))
      × (rank ch.severity ≤ rank o.alert_of.severity)
      × (o.haiku_calls ≡ 0)

  deep_stands :
      (ev : SecurityEvent) (summary : Bytes) (ch : CorrelationHit) (s : S)
      → StandsFor ch (correlation_deep libc llm ev summary ch s).0
  unfolding correlation_deep account make_alert
  deep_stands ev summary ch s =
      let c = (llm.deep_analyze s (summary ++ (text " | correlation: " ++ ch.reason))).0 in
      (refl, evidence_stands c.verdict, worse_right c.severity ch.severity, refl)

  hit_stands :
      (d : PrefilterDecision) (ev : SecurityEvent) (summary : Bytes) (pr : PrefilterResult)
      (ch : CorrelationHit) (s : S)
      → StandsFor ch (decide_hit libc llm d ev summary pr ch s).0
  unfolding decide_hit make_alert
  hit_stands alert ev summary pr ch s = (refl, inr refl, worse_right pr.severity ch.severity, refl)
  hit_stands drop ev summary pr ch s = deep_stands ev summary ch s
  hit_stands escalate ev summary pr ch s = deep_stands ev summary ch s

  -- A hit of the correlator always becomes an alert, whatever the rules and the LLM say of the event:
  -- its verdict is suspicious or malicious, its severity is at least the hit's, and Haiku is not asked.
  -- The event is not a drop notice of the agent.
  pub hit-alerts :
      (ev : SecurityEvent) (s : S) (corr : Correlator)
      → ev.type ≢ evt_agent_drop
      → (observe libc corr ev).0.hit ≡ true
      → let o = (classify_event libc llm ev s corr).0.0 in
        (o.alerted ≡ true)
        × ((o.alert_of.verdict ≡ suspicious) ⊎ (o.alert_of.verdict ≡ malicious))
        × (rank (observe libc corr ev).0.severity ≤ rank o.alert_of.severity)
        × (o.haiku_calls ≡ 0)
  unfolding classify_event
  hit-alerts ev s corr other hit =
      let e : (ev.type == evt_agent_drop) ≡ false = ground arith in
      rw (e, hit)
        (hit_stands (prefilter ev).decision ev (event_summary libc ev) (prefilter ev)
          (observe libc corr ev).0 s)

  -- What the rules and Haiku leave without an alert.
  abbrev pub IsSilent : SecurityEvent → S → Correlator → Type 0
  IsSilent ev s corr =
      (ev.type ≢ evt_agent_drop)
      × ((observe libc corr ev).0.hit ≡ false)
      × (((prefilter ev).decision ≡ drop)
          ⊎ (((prefilter ev).decision ≡ escalate)
              × ((llm.classify s (event_summary libc ev)).0.verdict ≡ normal)))

  escalate_silent :
      (ev : SecurityEvent) (summary : Bytes) (s : S)
      → ((escalate_event libc llm ev summary s).0.alerted ≡ false)
        ↔ ((llm.classify s summary).0.verdict ≡ normal)
  unfolding escalate_event account make_alert
  escalate_silent ev summary s = ground (arith, is_normal_iff (llm.classify s summary).0.verdict)

  decide_silent :
      (d : PrefilterDecision) (ev : SecurityEvent) (summary : Bytes) (pr : PrefilterResult) (s : S)
      → ((decide libc llm d ev summary pr s).0.alerted ≡ false)
        ↔ ((d ≡ drop) ⊎ ((d ≡ escalate) × ((llm.classify s summary).0.verdict ≡ normal)))
  unfolding decide make_alert
  decide_silent drop ev summary pr s = ground arith
  decide_silent alert ev summary pr s = ground arith
  decide_silent escalate ev summary pr s = ground (arith, escalate_silent ev summary s)

  -- An event passes without an alert exactly where it is no drop notice of the agent, the correlator has no hit,
  -- and the rules drop it, or the rules are undecided and Haiku says normal. So a failed call of the
  -- LLM, whose verdict is unknown, never silences an event.
  pub IsSilent-iff :
      (ev : SecurityEvent) (s : S) (corr : Correlator)
      → ((classify_event libc llm ev s corr).0.0.alerted ≡ false) ↔ IsSilent ev s corr
  unfolding classify_event
  IsSilent-iff ev s corr = elim (Bool-cases (ev.type == evt_agent_drop)) [
    | inl e ↦ rw e (ground arith)
    | inr e ↦ elim (Bool-cases (observe libc corr ev).0.hit) [
      | inl h ↦
          let stands =
            hit_stands (prefilter ev).decision ev (event_summary libc ev) (prefilter ev)
              (observe libc corr ev).0 s in
          let loud = stands.0 in rw (e, h) (ground arith)
      | inr h ↦
          let rest =
            decide_silent (prefilter ev).decision ev (event_summary libc ev) (prefilter ev) s in
          rw (e, h) (ground (arith, rest))
    ]
  ]
