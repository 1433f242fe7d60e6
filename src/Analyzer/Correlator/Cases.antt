-- ===== src/Analyzer/Correlator/Cases.antt =====
-- The ways in which a call of `observe` (analyzer/src/correlator.cpp) changes the correlator.
use pqc_edr.Base.{
  ℕ, ◌≡◌, inl, inr, Bool, true, false, not, ◌||◌, Bool-cases, List, [], ◌∷◌, ◌++◌, length, ltb,
  ◌==◌, is_empty, arith,
}
use pqc_edr.Base.Words.{Bytes}
use pqc_edr.Base.Text.{c_string, member, bytes_eq}
use pqc_edr.Event.{SecurityEvent, evt_execve, evt_tcp_connect, evt_file_open, fa_write, has_access}
use pqc_edr.Analyzer.Libc.{Libc}
use pqc_edr.Analyzer.Prefilter.{is_private_ipv4}
use pqc_edr.Analyzer.Prefilter.Paths.{basename_of}
use pqc_edr.Analyzer.Correlator.Maps.{find_entry, put_entry, keep_entries}
use pqc_edr.Analyzer.Correlator.State.{
  Correlator, StagedWrite, Lineage, ConnKey, key_eq, downloaders, is_temp_path, expired, max_staged,
  max_downloads, sweep_keys, history_expired, ancestor_set, drop_expired, pop_over, extend_history,
  history_of,
}
use pqc_edr.Analyzer.Correlator.{observe, observe_file, observe_execve, observe_connect}

-- The write that a file event records.
abbrev pub write_of : SecurityEvent → StagedWrite
write_of ev = record { ts_ns = ev.ts_ns; writer = c_string ev.comm }

abbrev pub staged_after : Correlator → SecurityEvent → List (Bytes × StagedWrite)
staged_after c ev = put_entry bytes_eq (c_string ev.file.path) (write_of ev) c.staged

abbrev pub in_window : Correlator → SecurityEvent → StagedWrite → Bool
in_window c ev w = not (expired c.window_ns ev.ts_ns w.ts_ns)

abbrev pub recent_downloads : Correlator → SecurityEvent → List Lineage
recent_downloads c ev = drop_expired (λ (d : Lineage). d.ts_ns) c.window_ns ev.ts_ns c.downloads

abbrev pub download_of : SecurityEvent → Lineage
download_of ev = record {
  ts_ns = ev.ts_ns;
  anc = ancestor_set ev;
  comm = basename_of (c_string ev.execve.filename);
}

abbrev pub key_of : SecurityEvent → ConnKey
key_of ev = record { comm = c_string ev.comm; daddr = ev.tcp.daddr; dport = ev.tcp.dport }

abbrev pub history_after : Correlator → SecurityEvent → List ℕ
history_after c ev =
    extend_history c.window_ns ev.ts_ns (history_of (find_entry key_eq (key_of ev) c.conns))

abbrev pub conns_after : Correlator → SecurityEvent → List (ConnKey × List ℕ)
conns_after c ev = put_entry key_eq (key_of ev) (history_after c ev) c.conns

-- A case for each way, over a property of the correlator that results.
pub record Cases {ℓ} (P : Correlator → Type ℓ) (c : Correlator) (ev : SecurityEvent) : Type ℓ where
  pub same : P c
  pub write :
      ev.type ≡ evt_file_open
      → has_access ev.file.access fa_write ≡ true
      → is_temp_path (c_string ev.file.path) ≡ true
      → P (record c { staged = staged_after c ev })
  pub write_sweep :
      ev.type ≡ evt_file_open
      → has_access ev.file.access fa_write ≡ true
      → is_temp_path (c_string ev.file.path) ≡ true
      → P (record c { staged = keep_entries (in_window c ev) (staged_after c ev) })
  pub run : P (record c { downloads = recent_downloads c ev })
  pub download : P (record c {
    downloads = pop_over max_downloads (recent_downloads c ev ++ download_of ev ∷ []);
  })
  pub connect :
      ev.type ≡ evt_tcp_connect
      → is_private_ipv4 ev.tcp.daddr ≡ false
      → P (record c { conns = conns_after c ev })
  pub connect_sweep :
      ev.type ≡ evt_tcp_connect
      → is_private_ipv4 ev.tcp.daddr ≡ false
      → P (record c {
        conns =
            keep_entries
              (λ (h : List ℕ). not (history_expired c.window_ns ev.ts_ns h))
              (conns_after c ev);
      })

module _ {ℓ} (libc : Libc) (P : Correlator → Type ℓ) (c : Correlator) (ev : SecurityEvent)
    (cases : Cases P c ev) where
  file_cases : ev.type ≡ evt_file_open → P (observe_file libc c ev).1
  unfolding observe_file
  file_cases is_file = elim (Bool-cases (has_access ev.file.access fa_write)) [
    | inr e ↦ rw e cases.same
    | inl e ↦
        elim (Bool-cases
          (is_empty (c_string ev.file.path) || not (is_temp_path (c_string ev.file.path)))) [
            | inl skip ↦ rw (e, skip) cases.same
            | inr go ↦
                let temp : is_temp_path (c_string ev.file.path) ≡ true = ground arith in
                elim (Bool-cases (ltb max_staged (length (staged_after c ev)))) [
                  | inl big ↦ rw (e, go, big) (cases.write_sweep is_file e temp)
                  | inr small ↦ rw (e, go, small) (cases.write is_file e temp)
                ]
          ]
  ]

  execve_cases : P (observe_execve libc c ev).1
  unfolding observe_execve
  execve_cases =
      elim (Bool-cases (member (basename_of (c_string ev.execve.filename)) downloaders)) [
        | inl e ↦ rw e cases.download
        | inr e ↦ elim (Bool-cases (is_temp_path (c_string ev.execve.filename))) [
          | inl temp ↦ rw (e, temp) cases.run
          | inr other ↦ rw (e, other) cases.run
        ]
      ]

  connect_cases : ev.type ≡ evt_tcp_connect → P (observe_connect libc c ev).1
  unfolding observe_connect
  connect_cases is_connect = elim (Bool-cases (is_private_ipv4 ev.tcp.daddr)) [
    | inl e ↦ rw e cases.same
    | inr e ↦ elim (Bool-cases (ltb (length (history_after c ev)) c.beacon_threshold)) [
      | inl few ↦ elim (Bool-cases (ltb sweep_keys (length (conns_after c ev)))) [
        | inl big ↦ rw (e, few, big) (cases.connect_sweep is_connect e)
        | inr small ↦ rw (e, few, small) (cases.connect is_connect e)
      ]
      | inr many ↦ elim (Bool-cases (ltb sweep_keys (length (conns_after c ev)))) [
        | inl big ↦ rw (e, many, big) (cases.connect_sweep is_connect e)
        | inr small ↦ rw (e, many, small) (cases.connect is_connect e)
      ]
    ]
  ]

  -- The cases are all that `observe` does to its state.
  pub observe_cases : P (observe libc c ev).1
  unfolding observe
  observe_cases = elim (Bool-cases (ev.type == evt_execve)) [
    | inl e ↦ rw e execve_cases
    | inr not_exec ↦ elim (Bool-cases (ev.type == evt_tcp_connect)) [
      | inl e ↦ rw (not_exec, e) (connect_cases (ground arith))
      | inr not_connect ↦ elim (Bool-cases (ev.type == evt_file_open)) [
        | inl e ↦ rw (not_exec, not_connect, e) (file_cases (ground arith))
        | inr other ↦ rw (not_exec, not_connect, other) cases.same
      ]
    ]
  ]

-- A write that names a staging path is recorded, and then the sweep may follow.
pub observe_write {ℓ} :
    (libc : Libc) (P : Correlator → Type ℓ) (c : Correlator) (ev : SecurityEvent)
    → ev.type ≡ evt_file_open
    → has_access ev.file.access fa_write ≡ true
    → is_empty (c_string ev.file.path) ≡ false
    → is_temp_path (c_string ev.file.path) ≡ true
    → P (record c { staged = staged_after c ev })
    → P (record c { staged = keep_entries (in_window c ev) (staged_after c ev) })
    → P (observe libc c ev).1
unfolding observe observe_file
observe_write libc P c ev kind writes named temp put swept =
    elim (Bool-cases (ltb max_staged (length (staged_after c ev)))) [
      | inl big ↦ rw (kind, writes, named, temp, big) swept
      | inr small ↦ rw (kind, writes, named, temp, small) put
    ]
