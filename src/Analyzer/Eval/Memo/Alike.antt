-- ===== src/Analyzer/Eval/Memo/Alike.antt =====
-- Two LLM clients with the same answers, but for the tokens, in analyzer/src/pipeline.cpp.
use pqc_edr.Base.{◌≡◌, refl, ap, inl, inr, Bool-cases, ◌++◌}
use pqc_edr.Base.Words.{Bytes}
use pqc_edr.Base.Text.{text}
use pqc_edr.Event.{SecurityEvent}
use pqc_edr.Analyzer.Libc.{Libc}
use pqc_edr.Analyzer.Llm.{Classification, LlmClient}
use pqc_edr.Analyzer.Correlator.State.{CorrelationHit}
use pqc_edr.Analyzer.Pipeline.{Outcome, is_normal, account, correlation_deep, escalate_event}
use pqc_edr.Analyzer.Eval.Memo.{free}

-- An outcome without its token counts.
abbrev pub untold : Outcome → Outcome
untold o = record o { input_tokens = 0; output_tokens = 0 }

-- Two clients that answer alike, but for the tokens, lead the pipeline to the same outcome.
module _ {M S : Type 0} (libc : Libc) (l : LlmClient M) (k : LlmClient S) where
  pub same_correlation :
      (ev : SecurityEvent) (summary : Bytes) (ch : CorrelationHit) (m : M) (s : S)
      → ((context : Bytes) → free (l.deep_analyze m context).0 ≡ free (k.deep_analyze s context).0)
      → untold (correlation_deep libc l ev summary ch m).0
        ≡ untold (correlation_deep libc k ev summary ch s).0
  unfolding correlation_deep account
  same_correlation ev summary ch m s same =
      let e = same (summary ++ (text " | correlation: " ++ ch.reason)) in
      rw
        (
          ap (λ (c : Classification). c.verdict) e,
          ap (λ (c : Classification). c.severity) e,
          ap (λ (c : Classification). c.reason) e,
        )
        refl

  pub same_escalation :
      (ev : SecurityEvent) (summary : Bytes) (m : M) (s : S)
      → free (l.classify m summary).0 ≡ free (k.classify s summary).0
      → free (l.deep_analyze (l.classify m summary).1 summary).0
        ≡ free (k.deep_analyze (k.classify s summary).1 summary).0
      → untold (escalate_event libc l ev summary m).0
        ≡ untold (escalate_event libc k ev summary s).0
  unfolding escalate_event account
  same_escalation ev summary m s e e' =
      let verdict = ap (λ (c : Classification). c.verdict) e in
      elim (Bool-cases (is_normal (k.classify s summary).0.verdict)) [
        | inl h ↦
            rw
              (
                verdict,
                h,
                ap (λ (c : Classification). c.model) e,
                ap (λ (c : Classification). c.reason) e,
                ap (λ (c : Classification). c.confidence) e,
              )
              refl
        | inr h ↦
            rw
              (
                verdict,
                h,
                ap (λ (c : Classification). c.verdict) e',
                ap (λ (c : Classification). c.severity) e',
                ap (λ (c : Classification). c.reason) e',
              )
              refl
      ]
