-- ===== src/Tests/Analyzer.antt =====
-- The theorems on analyzer/src at concrete events.
use pqc_edr.Base.{◌+◌, ◌^◌, ◌%◌, ◌≤◌, ◌≡◌, ◌↔◌, ◌⊎◌, refl, true, false, [], ◌∷◌, All, length, arith}
use pqc_edr.Base.Words.{Bytes}
use pqc_edr.Base.Text.{text, c_string, member, bytes_eq, starts_with}
use pqc_edr.Event.{SecurityEvent}
use pqc_edr.Analyzer.Alert.{critical, rank, suspicious, malicious}
use pqc_edr.Analyzer.Llm.{mock_llm}
use pqc_edr.Analyzer.Prefilter.{alert, drop, prefilter}
use pqc_edr.Analyzer.Prefilter.Paths.{basename_of}
use pqc_edr.Analyzer.Prefilter.Rules.{IsAlert, IsDropped, prefilter_iff}
use pqc_edr.Analyzer.Correlator.{observe}
use pqc_edr.Analyzer.Correlator.State.{Correlator, new_correlator, is_temp_path}
use pqc_edr.Analyzer.Correlator.Maps.{find_entry}
use pqc_edr.Analyzer.Correlator.Staging.{IsStaging, IsRun, observe_all, write_exec_detected}
use pqc_edr.Analyzer.Correlator.Chains.{Among, write_exec_real}
use pqc_edr.Analyzer.Correlator.Bounds.{staged_unbounded}
use pqc_edr.Analyzer.Pipeline.{classify_event}
use pqc_edr.Analyzer.Pipeline.Decisions.{hit-alerts, IsSilent-iff, IsSilent}
use pqc_edr.Analyzer.Pipeline.Calls.{counting, calls-counted, calls_of}
use pqc_edr.Analyzer.Pipeline.Chain.{last_outcome, write_exec_alert}
use pqc_edr.Tests.Events.{toy_libc, writes, runs, connects}

abbrev path : Bytes
path = text "/var/tmp/x"

abbrev fresh : Correlator
fresh = new_correlator 100 3

abbrev w : SecurityEvent
w = writes path 10

abbrev x : SecurityEvent
x = runs path 50

path-IsTemp : is_temp_path path ≡ true
unfolding is_temp_path text starts_with
path-IsTemp = refl

w-IsStaging : IsStaging path w
unfolding text c_string
w-IsStaging = record { kind = refl; writes = refl; names = refl }

x-IsRun : IsRun path x
unfolding text c_string basename_of member bytes_eq
x-IsRun = record { kind = refl; names = refl; other = refl }

between_times :
    All (λ (e : SecurityEvent). (w.ts_ns ≤ e.ts_ns) × (e.ts_ns ≤ x.ts_ns)) (connects 443 20 ∷ [])
between_times = ((omega arith, omega arith), tt)

detected :
    (observe toy_libc (observe_all toy_libc fresh (w ∷ connects 443 20 ∷ [])) x).0.rule
    ≡ text "write-exec-chain"
detected =
    (write_exec_detected toy_libc fresh path w x (connects 443 20 ∷ []) w-IsStaging path-IsTemp
      x-IsRun between_times (omega arith) (omega arith) (omega arith)).2

write_exec_real_example :
    (x.type ≡ 1)
    × (is_temp_path (c_string x.execve.filename) ≡ true)
    × (v : SecurityEvent) × Among v (w ∷ connects 443 20 ∷ [])
    × IsStaging (c_string x.execve.filename) v
    × (x.ts_ns ≤ (v.ts_ns + 100) % 2 ^ 64)
write_exec_real_example = write_exec_real toy_libc 100 3 (w ∷ connects 443 20 ∷ []) x detected

staged_unbounded_example : length (observe toy_libc fresh w).1.staged ≡ length fresh.staged + 1
unfolding text c_string is_temp_path starts_with find_entry
staged_unbounded_example = staged_unbounded toy_libc fresh w refl refl refl refl refl tt refl

prefilter_iff_example :
    (((prefilter x).decision ≡ alert) ↔ IsAlert x) × (((prefilter x).decision ≡ drop) ↔ IsDropped x)
prefilter_iff_example = prefilter_iff x

x_hit : (observe toy_libc (observe_all toy_libc fresh (w ∷ [])) x).0.hit ≡ true
x_hit =
    (write_exec_detected toy_libc fresh path w x [] w-IsStaging path-IsTemp x-IsRun tt (omega arith)
      (omega arith) (omega arith)).0

hit-alerts_example :
    let c = observe_all toy_libc fresh (w ∷ []) in
    let o = (classify_event toy_libc mock_llm x tt c).0.0 in
    (o.alerted ≡ true)
    × ((o.alert_of.verdict ≡ suspicious) ⊎ (o.alert_of.verdict ≡ malicious))
    × (rank (observe toy_libc c x).0.severity ≤ rank o.alert_of.severity)
    × (o.haiku_calls ≡ 0)
hit-alerts_example =
    hit-alerts toy_libc mock_llm x tt (observe_all toy_libc fresh (w ∷ [])) (omega arith) x_hit

IsSilent-iff_example :
    ((classify_event toy_libc mock_llm w tt fresh).0.0.alerted ≡ false)
    ↔ IsSilent toy_libc mock_llm w tt fresh
IsSilent-iff_example = IsSilent-iff toy_libc mock_llm w tt fresh

calls-counted_example :
    let r = (classify_event toy_libc (counting mock_llm) (connects 443 20) (tt, 4, 5) fresh).0 in
    (r.1.1 ≡ 4 + r.0.haiku_calls)
    × (r.1.2 ≡ 5 + r.0.sonnet_calls)
    × ((r.0.haiku_calls, r.0.sonnet_calls) ≡ calls_of r.0.layer)
calls-counted_example = calls-counted toy_libc mock_llm (connects 443 20) (tt, 4, 5) fresh

write_exec_alert_example :
    let o = last_outcome toy_libc mock_llm (w ∷ connects 443 20 ∷ []) x tt fresh in
    (o.alerted ≡ true)
    × (o.alert_of.severity ≡ critical)
    × ((o.alert_of.verdict ≡ suspicious) ⊎ (o.alert_of.verdict ≡ malicious))
write_exec_alert_example =
    write_exec_alert toy_libc mock_llm tt fresh path w x (connects 443 20 ∷ []) w-IsStaging
      path-IsTemp x-IsRun between_times (omega arith) (omega arith) (omega arith)
