-- ===== src/Tests/Eval.antt =====
-- The theorems on analyzer/src/eval.cpp at small inputs.
use pqc_edr.Base.{◌+◌, ◌≤◌, ◌≡◌, ◌↔◌, refl, List, [], ◌∷◌, map, arith}
use pqc_edr.Base.Text.{text}
use pqc_edr.Event.{SecurityEvent}
use pqc_edr.EventsFile.Parser.{Entry, event, delay}
use pqc_edr.Analyzer.Alert.{high, rank}
use pqc_edr.Analyzer.Llm.{mock_llm, mock_classify, mock_deep_analyze}
use pqc_edr.Analyzer.Correlator.State.{new_correlator}
use pqc_edr.Analyzer.Pipeline.{classify_all}
use pqc_edr.Analyzer.Pipeline.Calls.{counting}
use pqc_edr.Analyzer.Eval.{Stats, Scenario, new_scenario, on_attack, on_directive, run_file}
use pqc_edr.Analyzer.Eval.Gate.{HasDetection, outcomes_at, run_file-detects}
use pqc_edr.Analyzer.Eval.Memo.{new_memo, memo_llm}
use pqc_edr.Analyzer.Eval.Memo.Sound.{Answers}
use pqc_edr.Analyzer.Eval.Memo.Alike.{untold}
use pqc_edr.Analyzer.Eval.Memo.Transparent.{memo_transparent}
use pqc_edr.Analyzer.Eval.Memo.Budget.{memo_budget}
use pqc_edr.Tests.Events.{toy_libc, writes, runs, connects}

mock-Answers : Answers mock_llm
mock-Answers = record {
  fast = mock_classify;
  deep = mock_deep_analyze;
  classify_says = λ s context. refl;
  deep_says = λ s context. refl;
}

abbrev two_events : List SecurityEvent
two_events = connects 443 20 ∷ connects 443 30 ∷ []

memo_transparent_example :
    map untold
      (classify_all toy_libc
        (memo_llm mock_llm 4)
        two_events
        (new_memo tt)
        (new_correlator 100 3)).0
    ≡ map untold (classify_all toy_libc mock_llm two_events tt (new_correlator 100 3)).0
memo_transparent_example =
    memo_transparent toy_libc mock_llm 4 mock-Answers (omega arith) two_events tt
      (new_correlator 100 3) (omega arith)

memo_budget_example :
    let m =
      (classify_all toy_libc
        (memo_llm (counting mock_llm) 1)
        two_events
        (new_memo (tt, 0, 0))
        (new_correlator 100 3)).1 in
    (m.calls ≤ 1) × (m.inner.1 + m.inner.2 ≡ m.calls)
memo_budget_example =
    memo_budget mock_llm 1 (omega arith) toy_libc two_events tt (new_correlator 100 3)

abbrev scored : Scenario
scored = record (new_scenario (text "chain")) { max_sev = high }

abbrev no_stats : Stats (Unit {0})
no_stats = record {
  events = 0;
  alerts = 0;
  by_layer = [];
  by_source = [];
  fp_summary = [];
  haiku_calls = 0;
  sonnet_calls = 0;
  lat_rule_us = [];
  lat_llm_us = [];
}

abbrev attack : List Entry
attack =
    event (writes (text "/tmp/x") 0) []
    ∷ delay 5
    ∷ event (runs (text "/tmp/x") 0) (text "alert")
    ∷ []

run_file-detects_example :
    (rank high
      ≤ rank
          (run_file toy_libc mock_llm
            (λ ev. tt)
            on_attack
            on_directive
            attack
            tt
            (no_stats, new_scenario (text "chain"))).0.1.max_sev)
    ↔ HasDetection (
        outcomes_at toy_libc mock_llm
          (λ ev. tt)
          attack
          1000000000
          tt
          (new_correlator 60000000000 3))
run_file-detects_example =
    run_file-detects toy_libc mock_llm (λ ev. tt) (text "chain") attack tt no_stats
