-- ===== src/Analyzer/Correlator/Bounds.antt =====
-- What stays bounded in the correlator of analyzer/src/correlator.cpp, and what does not.
use pqc_edr.Base.{ℕ, ◌+◌, ◌≤◌, ◌≡◌, true, false, none, List, length, All, is_empty}
use pqc_edr.Base.Words.{Bytes}
use pqc_edr.Base.Text.{c_string, bytes_eq, bytes_eq_iff}
use pqc_edr.Event.{SecurityEvent, evt_file_open, fa_write, has_access}
use pqc_edr.Analyzer.Libc.{Libc}
use pqc_edr.Analyzer.Correlator.Maps.{find_entry, All-put, length-put_new, keep-All}
use pqc_edr.Analyzer.Correlator.State.{
  Correlator, StagedWrite, ConnKey, is_temp_path, max_downloads, max_hist_per_key,
}
use pqc_edr.Analyzer.Correlator.Cases.{observe_write, write_of, staged_after, in_window}
use pqc_edr.Analyzer.Correlator.{observe}

abbrev Short : ConnKey × List ℕ → Type 0
Short entry = length entry.1 ≤ max_hist_per_key

pub record IsBounded (c : Correlator) : Type 0 where
  pub downloads : length c.downloads ≤ max_downloads
  pub histories : All Short c.conns

module _ (libc : Libc) where
  -- The staged paths have no such bound: while nothing has expired, a write that names a new staging
  -- path adds an entry, whatever the number that is there.
  pub staged_unbounded :
      (c : Correlator) (ev : SecurityEvent)
      → ev.type ≡ evt_file_open
      → has_access ev.file.access fa_write ≡ true
      → is_empty (c_string ev.file.path) ≡ false
      → is_temp_path (c_string ev.file.path) ≡ true
      → find_entry bytes_eq (c_string ev.file.path) c.staged ≡ none
      → All (λ (e : Bytes × StagedWrite). in_window c ev e.1 ≡ true) c.staged
      → in_window c ev (write_of ev) ≡ true
      → length (observe libc c ev).1.staged ≡ length c.staged + 1
  staged_unbounded c ev kind writes named temp new fresh now =
      let added = length-put_new bytes_eq (c_string ev.file.path) (write_of ev) c.staged new in
      let kept = keep-All (in_window c ev) (staged_after c ev) (
        All-put bytes_eq bytes_eq_iff (λ (e : Bytes × StagedWrite). in_window c ev e.1 ≡ true) _
          (write_of ev) c.staged fresh now) in
      observe_write libc (λ (d : Correlator). length d.staged ≡ length c.staged + 1) c ev kind
        writes named temp added (rw kept added)
