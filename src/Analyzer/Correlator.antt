-- ===== src/Analyzer/Correlator.antt =====
-- The sequence correlator: analyzer/src/correlator.cpp and correlator.h.
-- `std::map` is an association list, written through `put_entry`; the sweeps drop what expired. A
-- method returns its hit and the correlator after it.
pub mod Maps
pub mod State
mod Cases
pub mod Staging
pub mod Chains
pub mod Bounds
unfoldable pub use State.*
use Maps.{put_entry, find_entry, keep_entries}
use pqc_edr.Base.{
  ℕ, ◌+◌, ◌-◌, ◌^◌, ◌%◌, Bool, true, false, not, ◌&&◌, ◌||◌, Option, none, some, List, [], ◌∷◌,
  ◌++◌, length, take, ltb, leb, ◌==◌, is_empty, if◌then◌else◌,
}
use pqc_edr.Base.Words.{Bytes}
use pqc_edr.Base.Text.{text, c_string, starts_with, member, bytes_eq, decimal}
use pqc_edr.Event.{
  SecurityEvent, Ancestor, evt_execve, evt_tcp_connect, evt_file_open, fa_write, has_access,
  ancestors,
}
use pqc_edr.Analyzer.Alert.{Severity, info, high, critical}
use pqc_edr.Analyzer.Libc.{Libc, snprintf}
use pqc_edr.Analyzer.Prefilter.{is_private_ipv4}
use pqc_edr.Analyzer.Prefilter.Paths.{basename_of}

module _ (libc : Libc) where
  unfoldable pub observe_file : Correlator → SecurityEvent → CorrelationHit × Correlator
  observe_file c ev =
      let path = c_string ev.file.path in
      let staged' =
        put_entry bytes_eq path (record { ts_ns = ev.ts_ns; writer = c_string ev.comm }) c.staged in
      let swept =
        keep_entries (λ (w : StagedWrite). not (expired c.window_ns ev.ts_ns w.ts_ns)) staged' in
      if not (has_access ev.file.access fa_write)
      then (no_hit, c)
      else if is_empty path || not (is_temp_path path)
      then (no_hit, c)
      else (
        no_hit,
        record c { staged = if ltb max_staged (length staged') then swept else staged' },
      )

  -- The first remembered download with an ancestor in common.
  unfoldable pub match_download : ℕ → List ℕ → List Lineage → CorrelationHit
  match_download now mine [] = no_hit
  match_download now mine (d ∷ ds) =
      let rest = match_download now mine ds in
      let shared = common_ancestor d.anc mine in
      if shared == 0 then rest else record {
        hit = true;
        severity = critical;
        rule = text "download-exec-chain";
        reason = snprintf 300 (
            text "다운로드→실행 체인: "
            ++ (d.comm
                ++ (text " 실행과 임시경로 실행이 공통 조상(pid="
                    ++ (decimal shared
                        ++ (text ") 공유, "
                            ++ (libc.seconds_tenths (elapsed now d.ts_ns) ++ text "초 내"))))));
      }

  -- The hit for a path that was staged.
  unfoldable pub write_exec_hit : ℕ → Bytes → StagedWrite → CorrelationHit
  write_exec_hit now path w = record {
    hit = true;
    severity = critical;
    rule = text "write-exec-chain";
    reason = snprintf 300 (
        text "쓰기→실행 체인: "
        ++ (w.writer
            ++ (text " 가 스테이징에 쓴 "
                ++ (path
                    ++ (text " 를 "
                        ++ (libc.seconds_tenths (elapsed now w.ts_ns)
                            ++ text "초 내 실행 (부모 무관)"))))));
  }

  unfoldable pub match_execve :
      ℕ → ℕ → Bytes → List ℕ → List Lineage → Option StagedWrite → CorrelationHit
  match_execve window now path mine downloads none = match_download now mine downloads
  match_execve window now path mine downloads (some w) =
      if leb now ((w.ts_ns + window) % 2 ^ 64)
      then write_exec_hit now path w
      else match_download now mine downloads

  unfoldable pub observe_execve : Correlator → SecurityEvent → CorrelationHit × Correlator
  observe_execve c ev =
      let now = ev.ts_ns in
      let path = c_string ev.execve.filename in
      let bin = basename_of path in
      let recent = drop_expired (λ (d : Lineage). d.ts_ns) c.window_ns now c.downloads in
      let c' = record c { downloads = recent } in
      let seen = recent ++ record { ts_ns = now; anc = ancestor_set ev; comm = bin } ∷ [] in
      if member bin downloaders
      then (no_hit, record c { downloads = pop_over max_downloads seen })
      else if not (is_temp_path path)
      then (no_hit, c')
      else (
        match_execve c.window_ns now path (ancestor_set ev) recent
            (find_entry bytes_eq path c.staged),
        c',
      )

  unfoldable pub observe_connect : Correlator → SecurityEvent → CorrelationHit × Correlator
  observe_connect c ev =
      let now = ev.ts_ns in
      let comm = c_string ev.comm in
      let key : ConnKey = record { comm = comm; daddr = ev.tcp.daddr; dport = ev.tcp.dport } in
      let hist = extend_history c.window_ns now (history_of (find_entry key_eq key c.conns)) in
      let conns' = put_entry key_eq key hist c.conns in
      let swept = keep_entries (λ (h : List ℕ). not (history_expired c.window_ns now h)) conns' in
      let c' = record c { conns = if ltb sweep_keys (length conns') then swept else conns' } in
      if is_private_ipv4 ev.tcp.daddr
      then (no_hit, c)
      else if ltb (length hist) c.beacon_threshold
      then (no_hit, c')
      else (
        record {
          hit = true;
          severity = high;
          rule = text "beacon";
          reason = snprintf 256 (
              text "비콘 의심: "
              ++ (comm
                  ++ (text " → "
                      ++ (libc.inet_ntop ev.tcp.daddr
                          ++ (text ":"
                              ++ (decimal ev.tcp.dport
                                  ++ (text " 로 "
                                      ++ (libc.seconds_whole c.window_ns
                                          ++ (text "초 윈도우 내 "
                                              ++ (decimal (length hist) ++ text "회 반복 접속"))))))))));
        },
        c',
      )

  unfoldable pub observe : Correlator → SecurityEvent → CorrelationHit × Correlator
  observe c ev =
      if ev.type == evt_execve
      then observe_execve c ev
      else if ev.type == evt_tcp_connect
      then observe_connect c ev
      else if ev.type == evt_file_open
      then observe_file c ev
      else (no_hit, c)
