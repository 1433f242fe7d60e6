-- ===== src/Analyzer/Eval/Memo/Transparent.antt =====
-- What `MemoLlm` of analyzer/src/eval.cpp changes: nothing but the cost.
use pqc_edr.Base.{
  ℕ, ◌+◌, ◌*◌, ◌^◌, ◌≤◌, ◌<◌, ◌≡◌, refl, sym, ap, ap₂, ◌∙◌, inl, inr, true, false, Bool-cases, List,
  [], ◌∷◌, ◌++◌, length, map, arith, ◌==◌,
}
use pqc_edr.Base.Words.{Bytes}
use pqc_edr.Base.Text.{text}
use pqc_edr.Event.{SecurityEvent, evt_agent_drop}
use pqc_edr.Analyzer.Libc.{Libc}
use pqc_edr.Analyzer.Llm.{LlmClient}
use pqc_edr.Analyzer.Correlator.{observe}
use pqc_edr.Analyzer.Correlator.State.{Correlator, CorrelationHit}
use pqc_edr.Analyzer.Prefilter.{
  PrefilterDecision, drop, escalate, alert, PrefilterResult, prefilter,
}
use pqc_edr.Analyzer.Prefilter.Summary.{event_summary}
use pqc_edr.Analyzer.Pipeline.{
  Outcome, is_normal, correlation_deep, escalate_event, decide, decide_hit, classify_event,
  classify_all,
}
use pqc_edr.Analyzer.Pipeline.Chain.{correlator_step}
use pqc_edr.Analyzer.Eval.Memo.{Memo, new_memo, free, get, memo_llm}
use pqc_edr.Analyzer.Eval.Memo.Sound.{Answers, IsSound, get_lem}
use pqc_edr.Analyzer.Eval.Memo.Alike.{untold, same_correlation, same_escalation}

module _ {S : Type 0} (libc : Libc) (llm : LlmClient S) (cap : ℕ) (a : Answers llm)
    (small : cap < 2 ^ 64) where
  -- What is shown of each part of the pipeline, run with the memo and without it.
  abbrev Agrees : ℕ → Outcome × Memo S → Outcome × S → Type 0
  Agrees n r q = (untold r.0 ≡ untold q.0) × IsSound llm cap a small (n + 2) r.1

  weaker :
      (n k : ℕ) (m : Memo S) → n ≤ k → IsSound llm cap a small n m → IsSound llm cap a small k m
  weaker n k m le (h, s, c) = (h, s, omega arith)

  deep-Agrees :
      (n : ℕ) (ev : SecurityEvent) (summary : Bytes) (ch : CorrelationHit) (m : Memo S) (s : S)
      → IsSound llm cap a small n m
      → n + 1 < cap
      → Agrees n
          (correlation_deep libc (memo_llm llm cap) ev summary ch m)
          (correlation_deep libc llm ev summary ch s)
  unfolding correlation_deep
  deep-Agrees n ev summary ch m s sound l =
      let context = summary ++ (text " | correlation: " ++ ch.reason) in
      let asked = get_lem llm cap a small n m context true sound (omega arith) in
      (
        same_correlation libc (memo_llm llm cap) llm ev summary ch m s (λ c.
            (get_lem llm cap a small n m c true sound (omega arith)).0
            ∙ ap free (sym (a.deep_says s c))),
        weaker (n + 1) (n + 2) (get llm cap m context true).1 (omega arith) asked.1,
      )

  escalation-Agrees :
      (n : ℕ) (ev : SecurityEvent) (summary : Bytes) (m : Memo S) (s : S)
      → IsSound llm cap a small n m
      → n + 1 < cap
      → Agrees n
          (escalate_event libc (memo_llm llm cap) ev summary m)
          (escalate_event libc llm ev summary s)
  unfolding escalate_event
  escalation-Agrees n ev summary m s sound l =
      let first = get_lem llm cap a small n m summary false sound (omega arith) in
      let m' = (get llm cap m summary false).1 in
      let second = get_lem llm cap a small (n + 1) m' summary true first.1 l in
      let m'' = (get llm cap m' summary true).1 in
      (
        same_escalation libc (memo_llm llm cap) llm ev summary m s
            (first.0 ∙ ap free (sym (a.classify_says s summary)))
            (second.0 ∙ ap free (sym (a.deep_says (llm.classify s summary).1 summary))),
        elim (Bool-cases (is_normal (get llm cap m summary false).0.verdict)) [
          | inl h ↦ rw h (weaker (n + 1) (n + 2) m' (omega arith) first.1)
          | inr h ↦ rw h (weaker (n + 1 + 1) (n + 2) m'' (omega arith) second.1)
        ],
      )

  hit-Agrees :
      (n : ℕ) (d : PrefilterDecision) (ev : SecurityEvent) (summary : Bytes) (pr : PrefilterResult)
      (ch : CorrelationHit) (m : Memo S) (s : S)
      → IsSound llm cap a small n m
      → n + 1 < cap
      → Agrees n
          (decide_hit libc (memo_llm llm cap) d ev summary pr ch m)
          (decide_hit libc llm d ev summary pr ch s)
  unfolding decide_hit
  hit-Agrees n alert ev summary pr ch m s sound l = (refl, weaker n (n + 2) m (omega arith) sound)
  hit-Agrees n drop ev summary pr ch m s sound l = deep-Agrees n ev summary ch m s sound l
  hit-Agrees n escalate ev summary pr ch m s sound l = deep-Agrees n ev summary ch m s sound l

  decision-Agrees :
      (n : ℕ) (d : PrefilterDecision) (ev : SecurityEvent) (summary : Bytes) (pr : PrefilterResult)
      (m : Memo S) (s : S)
      → IsSound llm cap a small n m
      → n + 1 < cap
      → Agrees n
          (decide libc (memo_llm llm cap) d ev summary pr m)
          (decide libc llm d ev summary pr s)
  unfolding decide
  decision-Agrees n alert ev summary pr m s sound l = (refl, weaker n (n + 2) m (omega arith) sound)
  decision-Agrees n drop ev summary pr m s sound l = (refl, weaker n (n + 2) m (omega arith) sound)
  decision-Agrees n escalate ev summary pr m s sound l = escalation-Agrees n ev summary m s sound l

  event-Agrees :
      (n : ℕ) (ev : SecurityEvent) (m : Memo S) (s : S) (corr : Correlator)
      → IsSound llm cap a small n m
      → n + 1 < cap
      → Agrees n
          (classify_event libc (memo_llm llm cap) ev m corr).0
          (classify_event libc llm ev s corr).0
  unfolding classify_event
  event-Agrees n ev m s corr sound l = elim (Bool-cases (ev.type == evt_agent_drop)) [
    | inl e ↦ rw e (refl, weaker n (n + 2) m (omega arith) sound)
    | inr e ↦ elim (Bool-cases (observe libc corr ev).0.hit) [
      | inl h ↦
          rw (e, h)
            (hit-Agrees n (prefilter ev).decision ev (event_summary libc ev) (prefilter ev)
              (observe libc corr ev).0 m s sound l)
      | inr h ↦
          rw (e, h)
            (decision-Agrees n (prefilter ev).decision ev (event_summary libc ev) (prefilter ev) m s
              sound l)
    ]
  ]

  -- The correlator goes the same way, whatever the client.
  run_agrees :
      (n : ℕ) (evs : List SecurityEvent) (m : Memo S) (s : S) (corr corr' : Correlator)
      → corr ≡ corr'
      → IsSound llm cap a small n m
      → n + 2 * length evs ≤ cap
      → map untold (classify_all libc (memo_llm llm cap) evs m corr).0
        ≡ map untold (classify_all libc llm evs s corr').0
  unfolding classify_all
  run_agrees n [] m s corr corr' same sound l = refl
  run_agrees n (ev ∷ evs) m s corr corr' same sound l =
      let (here, sound') = event-Agrees n ev m s corr sound (omega arith) in
      let r = classify_event libc (memo_llm llm cap) ev m corr in
      let q = classify_event libc llm ev s corr in
      let next : r.1 ≡ q.1 =
        correlator_step libc (memo_llm llm cap) ev m corr
        ∙ sym (correlator_step libc llm ev s corr) in
      let later = run_agrees (n + 2) evs r.0.1 q.0.1 r.1 q.1 next sound' (omega arith) in
      rw (← same) (ap₂ (λ (o : Outcome) (os : List Outcome). o ∷ os) here later)

  -- With the memo the pipeline gives the same outcomes, but for the token counts, as with the client
  -- itself, as long as the budget allows two calls for each event. The client's answers depend on
  -- the context only.
  pub memo_transparent :
      (evs : List SecurityEvent) (s : S) (corr : Correlator)
      → 2 * length evs ≤ cap
      → map untold (classify_all libc (memo_llm llm cap) evs (new_memo s) corr).0
        ≡ map untold (classify_all libc llm evs s corr).0
  memo_transparent evs s corr l =
      run_agrees 0 evs (new_memo s) s corr corr refl (tt, tt, omega arith) (omega arith)
