-- ===== src/Analyzer/Eval/Run.antt =====
-- The run of the evaluation harness over its files: `expand` and `main` of analyzer/src/eval.cpp.
-- The file system is a parameter. Latencies have an abstract type.
pub mod Sound
use pqc_edr.Base.{
  ℕ, ◌+◌, ◌-◌, Bool, true, false, not, ◌&&◌, ◌||◌, Option, none, some, List, [], ◌∷◌, ◌++◌, length,
  drop, ltb, leb, ◌==◌, is_empty, if◌then◌else◌,
}
use pqc_edr.Base.Words.{Bytes}
use pqc_edr.Base.Text.{text, bytes_eq}
use pqc_edr.Event.{SecurityEvent}
use pqc_edr.EventsFile.{Numbers}
use pqc_edr.EventsFile.Parser.{Entry, Fault, parse, getlines}
use pqc_edr.Analyzer.Alert.{rank, high}
use pqc_edr.Analyzer.Libc.{Libc}
use pqc_edr.Analyzer.Llm.{LlmClient}
use pqc_edr.Analyzer.Eval.{
  Stats, Scenario, new_scenario, basename_noext, on_benign, on_attack, on_directive, run_file,
  parse_sev, exit_code,
}
use pqc_edr.Analyzer.Eval.Memo.{Memo, new_memo, memo_llm}
use pqc_edr.Analyzer.Eval.Options.{Options}

-- What a path is, with the names in a directory, and the contents of a file; `none` where `stat` fails and
-- where the file cannot be opened.
pub data FileKind : Type 0 where
  plain : FileKind
  directory : List Bytes → FileKind

pub record FileTree : Type 0 where
  pub stat : Bytes → Option FileKind
  pub contents : Bytes → Option Bytes

-- How a part of `main` ends: by `exit`, by the parser's exception, which nothing catches, or with its value.
pub data Ran (V : Type 0) : Type 0 where
  exited : ℕ → Ran V
  uncaught : ℕ × Fault → Ran V
  ran : V → Ran V

infixl 5 ◌>>=◌
abbrev pub ◌>>=◌ : {V W : Type 0} → Ran V → (V → Ran W) → Ran W
exited n >>= next = exited n
uncaught f >>= next = uncaught f
ran v >>= next = next v

-- `operator<` of `std::string`, and `std::sort` by it.
unfoldable pub bytes_lt : Bytes → Bytes → Bool
bytes_lt xs [] = false
bytes_lt [] (y ∷ ys) = true
bytes_lt (x ∷ xs) (y ∷ ys) = ltb x y || (x == y && bytes_lt xs ys)

unfoldable pub insert_sorted : Bytes → List Bytes → List Bytes
insert_sorted x [] = x ∷ []
insert_sorted x (y ∷ ys) = if bytes_lt y x then y ∷ insert_sorted x ys else x ∷ y ∷ ys

unfoldable pub sort : List Bytes → List Bytes
sort [] = []
sort (x ∷ xs) = insert_sorted x (sort xs)

unfoldable pub is_events_name : Bytes → Bool
is_events_name n = ltb 7 (length n) && bytes_eq (drop (length n - 7) n) (text ".events")

unfoldable pub events_in : Bytes → List Bytes → List Bytes
events_in p [] = []
events_in p (n ∷ names) =
    let rest = events_in p names in if is_events_name n then (p ++ (text "/" ++ n)) ∷ rest else rest

abbrev pub files_of : Bytes → Option FileKind → Ran (List Bytes)
files_of p none = exited 2
files_of p (some plain) = ran (p ∷ [])
files_of p (some (directory names)) = ran (sort (events_in p names))

unfoldable pub expand : FileTree → List Bytes → Ran (List Bytes)
expand tree [] = ran []
expand tree (p ∷ paths) = do
  files ← files_of p (tree.stat p)
  more ← expand tree paths
  ran (files ++ more)

-- The entries of a file, as `run_file` gets them.
abbrev pub whole : List Entry × Option (ℕ × Fault) → Ran (List Entry)
whole (es, none) = ran es
whole (es, some fault) = uncaught fault

abbrev pub entries_in : Numbers → Option Bytes → Ran (List Entry)
entries_in lib none = exited 2
entries_in lib (some file) = whole (parse lib 0 (getlines file))

abbrev pub new_stats : {Time : Type 0} → Stats Time
new_stats = record {
  events = 0;
  alerts = 0;
  by_layer = [];
  by_source = [];
  fp_summary = [];
  haiku_calls = 0;
  sonnet_calls = 0;
  lat_rule_us = [];
  lat_llm_us = [];
}

module _ {S Time : Type 0} (lib : Numbers) (tree : FileTree) (libc : Libc) (llm : LlmClient S)
    (latency : SecurityEvent → Time) where
  -- The loop over the files of the benign corpus.
  unfoldable pub run_benign : List Bytes → S → Stats Time → Ran (Stats Time × S)
  run_benign [] s st = ran (st, s)
  run_benign (f ∷ files) s st = do
    es ← entries_in lib (tree.contents f)
    let r = run_file libc llm latency on_benign (λ acc d. acc) es s st
    run_benign files r.1 r.0

  -- The loop over the attack files, with the scenarios that it appends.
  unfoldable pub run_attack : List Bytes → S → Stats Time → Ran (List Scenario × Stats Time)
  run_attack [] s st = ran ([], st)
  run_attack (f ∷ files) s st = do
    es ← entries_in lib (tree.contents f)
    let r =
        run_file libc llm latency on_attack on_directive es s (st, new_scenario (basename_noext f))
    more ← run_attack files r.1 r.0.0
    ran (r.0.1 ∷ more.0, more.1)

  -- `main` after the options, with the statistics of both corpora and the scenarios.
  unfoldable pub run_corpora : Options → S → Ran (Stats Time × Stats Time × List Scenario)
  run_corpora o s = do
    bfiles ← expand tree o.benign
    done ← run_benign bfiles s new_stats
    afiles ← expand tree o.attack
    scored ← run_attack afiles done.1 new_stats
    ran (done.0, scored.1, scored.0)

abbrev pub status : {Time : Type 0} → Options → Stats Time × Stats Time × List Scenario → Ran ℕ
status o r = ran (exit_code o.gate r.2)

-- `main` after the options: its exit code, over the memoizing client.
unfoldable pub evaluate :
    {S Time : Type 0}
    → Numbers
    → FileTree
    → Libc
    → LlmClient S
    → (SecurityEvent → Time)
    → Options
    → S
    → Ran ℕ
evaluate lib tree libc inner latency o s =
    run_corpora lib tree libc (memo_llm inner o.cap) latency o (new_memo s) >>= status o

-- What the table of scenarios counts: detected, gated, and both.
pub record Counts : Type 0 where
  pub detected : ℕ
  pub gated : ℕ
  pub gated_ok : ℕ

unfoldable pub count_scenario : Scenario → Counts → Counts
count_scenario sc c =
    let det = leb (rank high) (rank sc.max_sev) in
    let in_gate = is_empty sc.known_miss in
    record {
      detected = if det then c.detected + 1 else c.detected;
      gated = if in_gate then c.gated + 1 else c.gated;
      gated_ok = if in_gate && det then c.gated_ok + 1 else c.gated_ok;
    }

unfoldable pub count_all : List Scenario → Counts → Counts
count_all [] c = c
count_all (sc ∷ scen) c = count_all scen (count_scenario sc c)

-- The column of the expected severity: none is expected, or it is reached.
unfoldable pub severity_met : Scenario → Bool
severity_met sc =
    is_empty sc.expect_max_sev || leb (rank (parse_sev sc.expect_max_sev)) (rank sc.max_sev)
