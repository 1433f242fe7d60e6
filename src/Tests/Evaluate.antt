-- ===== src/Tests/Evaluate.antt =====
-- The theorem on a whole evaluation of analyzer/src/eval.cpp at one attack file.
use pqc_edr.Base.{ℕ, ◌≡◌, refl, true, some, List, [], ◌∷◌}
use pqc_edr.Base.Words.{Bytes}
use pqc_edr.Base.Text.{text, bytes_eq}
use pqc_edr.Analyzer.Llm.{mock_llm}
use pqc_edr.Event.{SecurityEvent}
use pqc_edr.Analyzer.Eval.{Stats, Scenario}
use pqc_edr.Analyzer.Eval.Memo.{Memo, new_memo, memo_llm}
use pqc_edr.Analyzer.Eval.Options.{Options, default_options}
use pqc_edr.Analyzer.Eval.Run.{FileTree, directory, ran, expand, new_stats, evaluate, count_all}
use pqc_edr.Analyzer.Eval.Run.Sound.{IsCovered, no_counts, evaluate-covers}
use pqc_edr.Tests.Events.{toy_libc}
use pqc_edr.Tests.Lines.{toy_numbers}
use pqc_edr.Base.Text.{c_string, contains, member}
use pqc_edr.EventsFile.Tokens.{is_space, break_at, skip_while, read_token}
use pqc_edr.EventsFile.Parser.{
  getlines, decode_field, read_options, read_common, execve_line, event_line, line_of, parse_line,
  parse,
}
use pqc_edr.Analyzer.Prefilter.{prefilter_execve, prefilter}
use pqc_edr.Analyzer.Prefilter.Paths.{basename_of}
use pqc_edr.Analyzer.Correlator.{match_download, match_execve, observe_execve, observe}
use pqc_edr.Analyzer.Correlator.State.{is_temp_path, drop_expired}
use pqc_edr.Analyzer.Correlator.Maps.{find_entry}
use pqc_edr.Analyzer.Pipeline.{make_alert, decide, classify_event}
use pqc_edr.Event.{SecurityEvent}
use pqc_edr.Analyzer.Eval.{Stats, score, run_entries, is_missed, gate_fail, exit_code}
use pqc_edr.Analyzer.Eval.Run.{
  insert_sorted, sort, is_events_name, events_in, run_benign, run_attack, run_corpora,
}
use pqc_edr.Tests.Lines.{scan}

-- A directory with one attack file.
abbrev one_attack : FileTree
one_attack = record {
  stat = λ p. some (directory (text "readme" ∷ text "drop.events" ∷ []));
  contents = λ p. some (text "execve 5 4 bash /tmp/xmrig # expect:alert");
}

abbrev gated : Options
gated = record default_options { attack = text "attack" ∷ []; gate = true }

-- The gate passes, as bash runs /tmp/xmrig.
passed : evaluate toy_numbers one_attack toy_libc mock_llm (λ ev. ev.ts_ns) gated tt ≡ ran 0
unfolding text bytes_eq c_string contains member is_space break_at skip_while read_token getlines
    decode_field read_options read_common execve_line event_line line_of parse_line parse
    prefilter_execve prefilter basename_of match_download match_execve observe_execve observe
    is_temp_path drop_expired find_entry make_alert decide classify_event score run_entries
    is_missed gate_fail exit_code insert_sorted sort is_events_name events_in expand run_benign
    run_attack run_corpora evaluate scan
passed = refl

evaluate-covers_example :
    let llm = memo_llm mock_llm 2000 in
    let time = λ (ev : SecurityEvent). ev.ts_ns in
    (r : Stats ℕ × Stats ℕ × List Scenario) × (run_corpora toy_numbers one_attack toy_libc llm time
        gated
        (new_memo tt)
      ≡ ran r)
    × (bfiles : List Bytes) × (expand one_attack gated.benign ≡ ran bfiles)
    × (m : Memo (Unit {0})) × (run_benign toy_numbers one_attack toy_libc llm time bfiles
          (new_memo tt)
          new_stats
        ≡ ran (r.0, m))
    × (files : List Bytes) × (expand one_attack gated.attack ≡ ran files)
    × IsCovered toy_numbers one_attack toy_libc llm time files m new_stats r.2
    × ((count_all r.2 no_counts).gated ≡ (count_all r.2 no_counts).gated_ok)
evaluate-covers_example =
    evaluate-covers toy_numbers one_attack toy_libc mock_llm (λ ev. ev.ts_ns) gated tt passed refl
