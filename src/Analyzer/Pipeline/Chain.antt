-- ===== src/Analyzer/Pipeline/Chain.antt =====
-- From a staging write to the alert, through the whole of analyzer/src/pipeline.cpp.
use pqc_edr.Base.{◌+◌, ◌^◌, ◌≤◌, ◌<◌, ◌≡◌, ◌≢◌, ◌⊎◌, refl, true, List, [], ◌∷◌, arith, All}
use pqc_edr.Base.Words.{Bytes}
use pqc_edr.Event.{SecurityEvent, evt_agent_drop}
use pqc_edr.Analyzer.Alert.{
  suspicious, malicious, Severity, medium, rank, critical, info, low, high,
}
use pqc_edr.Analyzer.Libc.{Libc}
use pqc_edr.Analyzer.Llm.{LlmClient}
use pqc_edr.Analyzer.Correlator.{observe}
use pqc_edr.Analyzer.Correlator.State.{Correlator, is_temp_path}
use pqc_edr.Analyzer.Correlator.Staging.{observe_all, IsStaging, IsRun, write_exec_detected}
use pqc_edr.Analyzer.Pipeline.{Outcome, classify_event, classify_all}
use pqc_edr.Analyzer.Pipeline.Decisions.{hit-alerts}

module _ {S : Type 0} (libc : Libc) (llm : LlmClient S) where
  -- The pipeline shows the correlator every event, and a notice of the agent leaves it as it is.
  pub correlator_step :
      (ev : SecurityEvent) (s : S) (corr : Correlator)
      → (classify_event libc llm ev s corr).1 ≡ (observe libc corr ev).1
  unfolding classify_event observe
  correlator_step ev s corr = ground arith

  -- After any events, the pipeline's correlator is the one that observed the same events.
  pub correlator_run :
      (evs : List SecurityEvent) (s : S) (corr : Correlator)
      → (classify_all libc llm evs s corr).2 ≡ observe_all libc corr evs
  unfolding classify_all
  correlator_run [] s corr = refl
  correlator_run (ev ∷ evs) s corr =
      let r = classify_event libc llm ev s corr in
      rw (correlator_run evs r.0.1 r.1, correlator_step ev s corr)

  -- The outcome of the last of a list of events.
  abbrev pub last_outcome : List SecurityEvent → SecurityEvent → S → Correlator → Outcome
  last_outcome evs x s corr =
      let r = classify_all libc llm evs s corr in (classify_event libc llm x r.1 r.2).0.0

  top_rank : (v : Severity) → rank critical ≤ rank v → v ≡ critical
  top_rank info h = ground arith
  top_rank low h = ground arith
  top_rank medium h = ground arith
  top_rank high h = ground arith
  top_rank critical h = refl

  -- The analyzer reports a write to a staging directory that is run within the window: whatever the LLM
  -- answers and whatever other events come in between, from any state, the run becomes an alert of critical
  -- severity with a verdict of suspicious or malicious. The events in between have times between the two,
  -- no time overflows 64 bits with the window, and the name is not a downloader's.
  pub write_exec_alert :
      (s : S) (corr : Correlator) (path : Bytes) (w x : SecurityEvent)
      (between : List SecurityEvent)
      → IsStaging path w
      → is_temp_path path ≡ true
      → IsRun path x
      → All (λ (e : SecurityEvent). (w.ts_ns ≤ e.ts_ns) × (e.ts_ns ≤ x.ts_ns)) between
      → w.ts_ns ≤ x.ts_ns
      → x.ts_ns ≤ w.ts_ns + corr.window_ns
      → x.ts_ns + corr.window_ns < 2 ^ 64
      → let o = last_outcome (w ∷ between) x s corr in
        (o.alerted ≡ true)
        × (o.alert_of.severity ≡ critical)
        × ((o.alert_of.verdict ≡ suspicious) ⊎ (o.alert_of.verdict ≡ malicious))
  write_exec_alert s corr path w x between staging temp run times order near fits =
      let evs = w ∷ between in
      let r = classify_all libc llm evs s corr in
      let (hit, grave, _) =
        write_exec_detected libc corr path w x between staging temp run times order near fits in
      let same = correlator_run evs s corr in
      let kind : x.type ≢ evt_agent_drop = let e = run.kind in ground arith in
      let hit' : (observe libc r.2 x).0.hit ≡ true = rw same hit in
      let grave' : (observe libc r.2 x).0.severity ≡ critical = rw same grave in
      let (raised, verdict, severe, _) = hit-alerts libc llm x r.1 r.2 kind hit' in
      (raised, top_rank _ (rw grave' at severe), verdict)
