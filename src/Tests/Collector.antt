-- ===== src/Tests/Collector.antt =====
-- The theorems on agent/bpf/collector.bpf.c at one file that is written and run.
use pqc_edr.Base.{ℕ, ◌≡◌, ◌↔◌, ◌⊎◌, refl, true, false, some, [], ◌∷◌, ◌++◌, arith}
use pqc_edr.Base.Words.{Bytes}
use pqc_edr.Base.Text.{text, c_string, member, bytes_eq, starts_with}
use pqc_edr.Event.{SecurityEvent}
use pqc_edr.Analyzer.Alert.{critical, suspicious, malicious}
use pqc_edr.Analyzer.Llm.{mock_llm}
use pqc_edr.Analyzer.Prefilter.Paths.{basename_of}
use pqc_edr.Analyzer.Correlator.State.{new_correlator, is_temp_path, downloaders}
use pqc_edr.Analyzer.Pipeline.Chain.{last_outcome}
use pqc_edr.Agent.Collector.{Task, OpenFile, is_staging, handle_file_open, handle_execve}
use pqc_edr.Agent.Collector.Filter.{is_staging_lem}
use pqc_edr.Agent.Collector.Chain.{IsReported, IsReported-iff, dropped_payload_alerts}
use pqc_edr.Tests.Events.{toy_libc, blank}

abbrev buffer : Bytes
buffer = text "/dev/shm/x" ++ 0 ∷ 7 ∷ []

abbrev task_at : ℕ → Task
task_at now = record { pid = 5; ppid = 4; now = now; comm = text "sh"; parents = [] }

abbrev opened : OpenFile
opened = record {
  mode = 2;
  ino = 77;
  dev = 1;
  sensitive = false;
  scratch = true;
  d_path = some buffer;
}

is_staging_lem_example : is_staging buffer ≡ is_temp_path (c_string buffer)
is_staging_lem_example = is_staging_lem buffer

IsReported-iff_example :
    ((ev : SecurityEvent) × (handle_file_open (λ b. b) (some (blank 0)) (task_at 10) opened
        ≡ some ev))
    ↔ IsReported opened
IsReported-iff_example = IsReported-iff (λ b. b) (blank 0) (task_at 10) opened

buffer-IsTemp : is_temp_path (c_string buffer) ≡ true
unfolding is_temp_path text starts_with c_string
buffer-IsTemp = refl

buffer-other : member (basename_of (c_string buffer)) downloaders ≡ false
unfolding text c_string basename_of member bytes_eq
buffer-other = refl

dropped_payload_alerts_example :
    (w x : SecurityEvent) × (handle_file_open (λ b. b) (some (blank 0)) (task_at 10) opened
      ≡ some w)
    × (handle_execve (some (blank 0)) (task_at 50) buffer ≡ some x)
    × (let o = last_outcome toy_libc mock_llm (w ∷ []) x tt (new_correlator 100 3) in
        (o.alerted ≡ true)
        × (o.alert_of.severity ≡ critical)
        × ((o.alert_of.verdict ≡ suspicious) ⊎ (o.alert_of.verdict ≡ malicious)))
dropped_payload_alerts_example =
    dropped_payload_alerts toy_libc mock_llm tt (new_correlator 100 3) (λ b. b) (blank 0) (blank 0)
      (task_at 10) (task_at 50) opened buffer buffer [] refl refl refl buffer-IsTemp buffer-other
      refl refl tt (omega arith) (omega arith) (omega arith)
