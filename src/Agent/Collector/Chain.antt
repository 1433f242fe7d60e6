-- ===== src/Agent/Collector/Chain.antt =====
-- From the hooks of agent/bpf/collector.bpf.c to the analyzer's decisions.
use pqc_edr.Base.{
  ℕ, ◌+◌, ◌≡◌, ◌↔◌, ◌⊎◌, inl, inr, refl, true, false, if◌then◌else◌, Option, none, some,
  Option-cases, ◌≤◌, ◌<◌, ◌^◌, List, All, ◌∷◌, bit_or, arith,
}
use pqc_edr.Base.Words.{Bytes}
use pqc_edr.Base.Text.{c_string, member}
use pqc_edr.Event.{SecurityEvent, evt_execve, fa_write, fa_sensitive, has_access}
use pqc_edr.Analyzer.Correlator.State.{is_temp_path}
use pqc_edr.Analyzer.Correlator.Staging.{IsStaging}
use pqc_edr.Analyzer.Prefilter.{prefilter, prefilter_file, alert, drop}
use pqc_edr.Analyzer.Alert.{critical, suspicious, malicious}
use pqc_edr.Analyzer.Libc.{Libc}
use pqc_edr.Analyzer.Llm.{LlmClient}
use pqc_edr.Analyzer.Prefilter.Paths.{basename_of}
use pqc_edr.Analyzer.Correlator.State.{Correlator, downloaders}
use pqc_edr.Analyzer.Pipeline.Chain.{last_outcome, write_exec_alert}
use pqc_edr.Agent.Collector.{
  Task, OpenFile, fmode_write, file_wanted, file_access, file_event, submit, fill_common,
  handle_file_open, handle_execve,
}
use pqc_edr.Agent.Collector.Filter.{is_staging_lem}

-- What the hook wants to report: an open of a sensitive file, and an open for writing below a staging
-- directory. Of a file opened for writing it must be able to read the path.
abbrev HasPath : OpenFile → (Bytes → Type 0) → Type 0
HasPath f P = (buf : Bytes) × (f.scratch ≡ true) × (f.d_path ≡ some buf) × P buf

abbrev pub IsReported : OpenFile → Type 0
IsReported f =
    ((has_access f.mode fmode_write ≡ false) × (f.sensitive ≡ true))
    ⊎ ((has_access f.mode fmode_write ≡ true)
        × HasPath f (λ buf. (f.sensitive ≡ true) ⊎ (is_temp_path (c_string buf) ≡ true)))

wanted-IsReported : (f : OpenFile) (w : ℕ × Option Bytes) → file_wanted f ≡ some w → IsReported f
unfolding file_wanted
wanted-IsReported f w h = elim (Option-cases f.d_path) [
  | inl e ↦ ground (arith, e)
  | inr (buf, e) ↦ ground (arith, e, is_staging_lem buf)
]

wanted_read :
    (f : OpenFile)
    → (has_access f.mode fmode_write ≡ false) × (f.sensitive ≡ true)
    → file_wanted f ≡ some (0, none)
unfolding file_wanted
wanted_read f h = ground arith

wanted_write :
    (f : OpenFile) (buf : Bytes)
    → has_access f.mode fmode_write ≡ true
    → f.scratch ≡ true
    → f.d_path ≡ some buf
    → (f.sensitive ≡ true) ⊎ (is_temp_path (c_string buf) ≡ true)
    → file_wanted f ≡ some (bit_or 0 fa_write, some buf)
unfolding file_wanted
wanted_write f buf w s e h = ground (arith, is_staging_lem buf)

wanted_access :
    (f : OpenFile) (w : ℕ × Option Bytes)
    → file_wanted f ≡ some w
    → (w.0 ≡ 0) ⊎ (w.0 ≡ bit_or 0 fa_write)
unfolding file_wanted
wanted_access f w h = elim (Option-cases f.d_path) [
  | inl e ↦ ground (arith, e)
  | inr (buf, e) ↦ ground (arith, e)
]

file_access-write : (f : OpenFile) → has_access (file_access f (bit_or 0 fa_write)) fa_write ≡ true
unfolding file_access
file_access-write f = ground arith

file_access-sensitive :
    (f : OpenFile)
    → (has_access (file_access f (bit_or 0 fa_write)) fa_sensitive ≡ f.sensitive)
      × (has_access (file_access f 0) fa_sensitive ≡ f.sensitive)
unfolding file_access
file_access-sensitive f = ground arith

module _ (copy : Bytes → Bytes) (e : SecurityEvent) (task : Task) where
  -- The hook submits an event, where the ring buffer has room, for exactly the opens of `IsReported`: a
  -- sensitive file opened without writing, and a file opened for writing whose path the kernel can
  -- give and which is sensitive or below a staging directory of the correlator's.
  pub IsReported-iff :
      (f : OpenFile)
      → ((ev : SecurityEvent) × (handle_file_open copy (some e) task f ≡ some ev)) ↔ IsReported f
  unfolding handle_file_open submit
  IsReported-iff f = (
    (λ (ev, h). elim (Option-cases (file_wanted f)) [
      | inl e ↦ cc
      | inr (w, e) ↦ wanted-IsReported f w e
    ]),
    (λ reported. elim reported [
      | inl read ↦ (file_event copy e task f (0, none), rw (wanted_read f read) refl)
      | inr (w, (buf, s, path, h)) ↦ (
        file_event copy e task f (bit_or 0 fa_write, some buf),
        rw (wanted_write f buf w s path h) refl,
      )
    ]),
  )

  -- What the hook reports of a file below a staging directory is a write that the correlator keeps
  -- under the path that the kernel gave, where the copy keeps the text.
  IsStaging-open :
      (f : OpenFile) (buf : Bytes)
      → has_access f.mode fmode_write ≡ true
      → f.scratch ≡ true
      → f.d_path ≡ some buf
      → is_temp_path (c_string buf) ≡ true
      → c_string (copy buf) ≡ c_string buf
      → let ev = file_event copy e task f (bit_or 0 fa_write, some buf) in
        (handle_file_open copy (some e) task f ≡ some ev) × IsStaging (c_string buf) ev
  unfolding handle_file_open submit fill_common
  IsStaging-open f buf w s path temp same = (
    rw (wanted_write f buf w s path (inr temp)) refl,
    record { kind = refl; writes = file_access-write f; names = same },
  )

  -- The rule filter raises an alert for every event that the hook submits of a sensitive file, and
  -- drops the others to the correlator.
  pub sensitive_open_alerts :
      (f : OpenFile) (ev : SecurityEvent)
      → handle_file_open copy (some e) task f ≡ some ev
      → (prefilter ev).decision ≡ (if f.sensitive then alert else drop)
  unfolding handle_file_open submit fill_common prefilter prefilter_file
  sensitive_open_alerts f ev h = elim (Option-cases (file_wanted f)) [
    | inl n ↦ cc
    | inr (w, n) ↦
        let made : ev ≡ file_event copy e task f w = cc in
        rw made (elim (wanted_access f w n) [
          | inl a ↦ rw a (ground (arith, (file_access-sensitive f).1))
          | inr a ↦ rw a (ground (arith, (file_access-sensitive f).0))
        ])
  ]

-- A payload that is written and then run: the two hooks report it, and the analyzer alerts. The first
-- hook sees an open for writing whose path, as the kernel gives it, is below a staging directory; the
-- second sees that path executed, under a name that is not a downloader's; the copies of the strings
-- keep them, and the ring buffer has room for both. Whatever events come between them, the execution
-- becomes an alert of critical severity, if it comes within the window and no time overflows with it.
pub dropped_payload_alerts :
    {S : Type 0} (libc : Libc) (llm : LlmClient S) (s : S) (corr : Correlator)
    (copy : Bytes → Bytes) (e e' : SecurityEvent) (writer runner : Task) (f : OpenFile)
    (buf filename : Bytes) (between : List SecurityEvent)
    → has_access f.mode fmode_write ≡ true
    → f.scratch ≡ true
    → f.d_path ≡ some buf
    → is_temp_path (c_string buf) ≡ true
    → member (basename_of (c_string buf)) downloaders ≡ false
    → c_string (copy buf) ≡ c_string buf
    → c_string filename ≡ c_string buf
    → All (λ (b : SecurityEvent). (writer.now ≤ b.ts_ns) × (b.ts_ns ≤ runner.now)) between
    → writer.now ≤ runner.now
    → runner.now ≤ writer.now + corr.window_ns
    → runner.now + corr.window_ns < 2 ^ 64
    → (w x : SecurityEvent) × (handle_file_open copy (some e) writer f ≡ some w)
      × (handle_execve (some e') runner filename ≡ some x)
      × (let o = last_outcome libc llm (w ∷ between) x s corr in
          (o.alerted ≡ true)
          × (o.alert_of.severity ≡ critical)
          × ((o.alert_of.verdict ≡ suspicious) ⊎ (o.alert_of.verdict ≡ malicious)))
unfolding handle_execve fill_common
dropped_payload_alerts libc llm s corr copy e e' writer runner f buf filename between w sc path temp
      other same same' times order near fits =
    let (reported, staging) = IsStaging-open copy e writer f buf w sc path temp same in
    let x = record (fill_common e' evt_execve runner) { execve = record { filename = filename } } in
    (
      file_event copy e writer f (bit_or 0 fa_write, some buf),
      x,
      reported,
      refl,
      write_exec_alert libc llm s corr (c_string buf)
          (file_event copy e writer f (bit_or 0 fa_write, some buf)) x between staging temp
          (record { kind = refl; names = same'; other = other }) times order near fits,
    )
