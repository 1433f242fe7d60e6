-- ===== src/Analyzer/Eval/Gate.antt =====
-- What the scores of analyzer/src/eval.cpp mean, and what its gate lets pass.
use pqc_edr.Base.{
  ℕ, ◌+◌, ◌*◌, ◌%◌, ◌^◌, ◌≤◌, ◌≡◌, ◌≢◌, ◌↔◌, ◌⊎◌, refl, subst, inl, inr, Bool, true, false, List,
  [], ◌∷◌, All, is_empty, arith,
}
use pqc_edr.Base.Words.{Bytes}
use pqc_edr.Event.{SecurityEvent}
use pqc_edr.EventsFile.Parser.{Entry, event, delay, directive}
use pqc_edr.Analyzer.Alert.{Severity, high, rank}
use pqc_edr.Analyzer.Libc.{Libc}
use pqc_edr.Analyzer.Llm.{LlmClient}
use pqc_edr.Analyzer.Correlator.State.{Correlator, new_correlator}
use pqc_edr.Analyzer.Pipeline.{Outcome, classify_event}
use pqc_edr.Analyzer.Eval.{
  Stats, Scenario, new_scenario, score, directed, on_attack, on_directive, run_entries, run_file,
  is_missed, gate_fail, exit_code,
}

-- A scenario that does not fail the gate: it names a known miss, or its worst alert is high at least.
abbrev pub IsPassed : Scenario → Type 0
IsPassed sc = (sc.known_miss ≢ []) ⊎ (rank high ≤ rank sc.max_sev)

is_empty_iff : (s : Bytes) → (is_empty s ≡ false) ↔ (s ≢ [])
is_empty_iff [] = ((λ h. cc), (λ h. absurd (h refl)))
is_empty_iff (c ∷ s) = ((λ h e. cc), (λ h. refl))

IsPassed-iff : (sc : Scenario) → (is_missed sc ≡ false) ↔ IsPassed sc
unfolding is_missed
IsPassed-iff sc = ground (arith, is_empty_iff sc.known_miss)

gate_iff : (scen : List Scenario) → (gate_fail scen ≡ false) ↔ All IsPassed scen
unfolding gate_fail
gate_iff [] = ((λ h. tt), (λ h. refl))
gate_iff (sc ∷ scen) =
    let (to, from) = IsPassed-iff sc in
    let (to', from') = gate_iff scen in
    (
      (λ h. (to (ground arith), to' (ground arith))),
      (λ (p, ps). let e = from p in let es = from' ps in ground arith),
    )

-- With the gate on, the harness succeeds exactly if every scenario that names no known miss has an
-- alert of at least high severity; with the gate off, it always succeeds.
pub exit_code_lem :
    (gate : Bool) (scen : List Scenario)
    → (exit_code gate scen ≡ 0) ↔ ((gate ≡ false) ⊎ All IsPassed scen)
unfolding exit_code
exit_code_lem false scen = ((λ h. inl refl), (λ h. refl))
exit_code_lem true scen =
    let (to, from) = gate_iff scen in
    (
      (λ h. inr (to (ground arith))),
      (λ h. elim h [ inl e ↦ cc | inr p ↦ let e = from p in ground arith ]),
    )

-- An outcome that the scores count as a detection.
abbrev pub IsDetection : Outcome → Type 0
IsDetection o = (o.alerted ≡ true) × (rank high ≤ rank o.alert_of.severity)

abbrev pub HasDetection : List Outcome → Type 0
HasDetection [] = ⊥
HasDetection (o ∷ os) = IsDetection o ⊎ HasDetection os

module _ {S Time : Type 0} (libc : Libc) (llm : LlmClient S) (latency : SecurityEvent → Time) where
  -- The outcomes of the events of a file, on the virtual clock: each event is one millisecond after
  -- what is before it, and a delay moves the clock.
  abbrev pub outcomes_at : List Entry → ℕ → S → Correlator → List Outcome
  outcomes_at [] vclock s corr = []
  outcomes_at (directive d ∷ es) vclock s corr = outcomes_at es vclock s corr
  outcomes_at (delay ms ∷ es) vclock s corr =
      outcomes_at es ((vclock + ms * 1000000) % 2 ^ 64) s corr
  outcomes_at (event ev expect ∷ es) vclock s corr =
      let now = (vclock + 1000000) % 2 ^ 64 in
      let done = classify_event libc llm (record ev { ts_ns = now }) s corr in
      done.0.0 ∷ outcomes_at es now done.0.1 done.1

  score-detects :
      (sc : Scenario) (expect : Bytes) (o : Outcome)
      → (rank high ≤ rank (score sc expect o).max_sev)
        ↔ ((rank high ≤ rank sc.max_sev) ⊎ IsDetection o)
  unfolding score
  score-detects sc expect o = ground arith

  directed-max_sev : (sc : Scenario) (d : Bytes) → (directed sc d).max_sev ≡ sc.max_sev
  unfolding directed
  directed-max_sev sc d = ground arith

  run_detects :
      (es : List Entry) (vclock : ℕ) (s : S) (corr : Correlator) (st : Stats Time) (sc : Scenario)
      → (rank high
          ≤ rank
              (run_entries libc llm latency on_attack on_directive es vclock s corr
                (st, sc)).0.1.max_sev)
        ↔ ((rank high ≤ rank sc.max_sev) ⊎ HasDetection (outcomes_at es vclock s corr))
  unfolding run_entries
  run_detects [] vclock s corr st sc = (inl, (λ h. elim h [ inl p ↦ p | inr e ↦ absurd e ]))
  run_detects (directive d ∷ es) vclock s corr st sc =
      let same = directed-max_sev sc d in
      let ih = run_detects es vclock s corr st (directed sc d) in
      let acc : Stats Time × Scenario = (st, directed sc d) in
      let result = (run_entries libc llm latency on_attack on_directive es vclock s corr acc).0.1 in
      subst
        (λ (v : Severity).
          (rank high ≤ rank result.max_sev)
          ↔ ((rank high ≤ rank v) ⊎ HasDetection (outcomes_at es vclock s corr)))
        same ih
  run_detects (delay ms ∷ es) vclock s corr st sc =
      run_detects es ((vclock + ms * 1000000) % 2 ^ 64) s corr st sc
  run_detects (event ev expect ∷ es) vclock s corr st sc =
      let now = (vclock + 1000000) % 2 ^ 64 in
      let ev' : SecurityEvent = record ev { ts_ns = now } in
      let done = classify_event libc llm ev' s corr in
      let acc = on_attack (st, sc) expect done.0.0 (latency ev') in
      let (to, from) = run_detects es now done.0.1 done.1 acc.0 acc.1 in
      let (here, there) = score-detects sc expect done.0.0 in
      (
        (λ h. elim (to h) [
          | inl p ↦ elim (here p) [ inl q ↦ inl q | inr q ↦ inr (inl q) ]
          | inr p ↦ inr (inr p)
        ]),
        (λ h. elim h [
          | inl p ↦ from (inl (there (inl p)))
          | inr p ↦ elim p [ inl q ↦ from (inl (there (inr q))) | inr q ↦ from (inr q) ]
        ]),
      )

  -- An attack file is scored as detected, by a worst severity of high or more, exactly if one of its
  -- events becomes an alert of high or critical severity, with a new correlator and the virtual clock
  -- that starts at one second.
  pub run_file-detects :
      (name : Bytes) (es : List Entry) (s : S) (st : Stats Time)
      → (rank high
          ≤ rank
              (run_file libc llm latency on_attack on_directive es s
                (st, new_scenario name)).0.1.max_sev)
        ↔ HasDetection (outcomes_at es 1000000000 s (new_correlator 60000000000 3))
  run_file-detects name es s st =
      let (to, from) =
        run_detects es 1000000000 s (new_correlator 60000000000 3) st (new_scenario name) in
      ((λ h. elim (to h) [ inl p ↦ absurd (omega arith) | inr q ↦ q ]), (λ h. from (inr h)))
