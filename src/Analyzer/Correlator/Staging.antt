-- ===== src/Analyzer/Correlator/Staging.antt =====
-- Write then execute (analyzer/src/correlator.cpp): a file written to a staging directory and run
-- within the window is reported, whatever happens in between, and nothing else is.
use pqc_edr.Base.{
  ℕ, ◌+◌, ◌^◌, ◌%◌, ◌≤◌, ◌<◌, ◌≡◌, refl, inl, inr, true, false, not, Bool-cases, some, List, [],
  ◌∷◌, All, leb, is_empty, arith,
}
use pqc_edr.Base.Words.{Bytes}
use pqc_edr.Base.Text.{starts_with, text, c_string, member, bytes_eq, bytes_eq_iff, bytes_eq_refl}
use pqc_edr.Event.{SecurityEvent, evt_execve, evt_file_open, fa_write, has_access}
use pqc_edr.Analyzer.Alert.{critical}
use pqc_edr.Analyzer.Libc.{Libc}
use pqc_edr.Analyzer.Prefilter.Paths.{basename_of}
use pqc_edr.Analyzer.Correlator.Maps.{find_entry, keep_entries, find-put, find-keep}
use pqc_edr.Analyzer.Correlator.State.{
  Correlator, StagedWrite, downloaders, is_temp_path, expired, Lineage, ConnKey,
}
use pqc_edr.Analyzer.Correlator.Cases.{
  observe_cases, observe_write, write_of, staged_after, in_window,
}
use pqc_edr.Analyzer.Correlator.{observe, observe_execve, write_exec_hit, match_execve}

-- A write to a staging directory that names its path.
pub record IsStaging (path : Bytes) (ev : SecurityEvent) : Type 0 where
  pub kind : ev.type ≡ evt_file_open
  pub writes : has_access ev.file.access fa_write ≡ true
  pub names : c_string ev.file.path ≡ path

-- An execution of that path. The base name must not be a downloader's, which is tested first.
pub record IsRun (path : Bytes) (ev : SecurityEvent) : Type 0 where
  pub kind : ev.type ≡ evt_execve
  pub names : c_string ev.execve.filename ≡ path
  pub other : member (basename_of path) downloaders ≡ false

not_temp_empty : is_temp_path [] ≡ false
unfolding is_temp_path text starts_with
not_temp_empty = refl

temp_nonempty : (p : Bytes) → is_temp_path p ≡ true → is_empty p ≡ false
temp_nonempty [] t = cc (not_temp_empty, t)
temp_nonempty (b ∷ bs) t = refl

module _ (libc : Libc) where
  -- A run of `observe` over events, from a correlator.
  abbrev pub observe_all : Correlator → List SecurityEvent → Correlator
  observe_all c [] = c
  observe_all c (ev ∷ evs) = observe_all (observe libc c ev).1 evs

  -- The path is remembered with a time that is not before `since`.
  pub record IsRemembered (path : Bytes) (since until window : ℕ) (c : Correlator) : Type 0 where
    pub write : StagedWrite
    pub found : find_entry bytes_eq path c.staged ≡ some write
    pub from : since ≤ write.ts_ns
    pub to : write.ts_ns ≤ until
    pub same_window : c.window_ns ≡ window

  module _ (path : Bytes) (since until window : ℕ) (near : until ≤ since + window)
      (fits : until + window < 2 ^ 64) where
    -- A remembered write of the period has not expired before its end.
    not-expired :
        (w : StagedWrite) (now : ℕ)
        → since ≤ w.ts_ns
        → w.ts_ns ≤ until
        → now ≤ until
        → not (expired window now w.ts_ns) ≡ true
    not-expired w now lo hi le = ground arith

    write_kept :
        (c : Correlator) (ev : SecurityEvent)
        → ev.ts_ns ≤ until
        → since ≤ ev.ts_ns
        → IsRemembered path since until window c
        → IsRemembered path since until window (record c { staged = staged_after c ev })
    write_kept c ev hi lo r = elim (Bool-cases (bytes_eq (c_string ev.file.path) path)) [
      | inl same ↦ record {
        write = write_of ev;
        found = rw (find-put bytes_eq bytes_eq_iff, same);
        from = lo;
        to = hi;
        same_window = r.same_window;
      }
      | inr other ↦ record {
        write = r.write;
        found = rw (find-put bytes_eq bytes_eq_iff, other) r.found;
        from = r.from;
        to = r.to;
        same_window = r.same_window;
      }
    ]

    sweep_kept :
        (c : Correlator) (ev : SecurityEvent)
        → ev.ts_ns ≤ until
        → IsRemembered path since until window c
        → IsRemembered path since until window
            (record c { staged = keep_entries (in_window c ev) c.staged })
    sweep_kept c ev hi r = record {
      write = r.write;
      found =
          find-keep bytes_eq (in_window c ev) path r.write c.staged r.found
            (rw r.same_window (not-expired r.write ev.ts_ns r.from r.to hi));
      from = r.from;
      to = r.to;
      same_window = r.same_window;
    }

    IsRemembered-step :
        (c : Correlator) (ev : SecurityEvent)
        → since ≤ ev.ts_ns
        → ev.ts_ns ≤ until
        → IsRemembered path since until window c
        → IsRemembered path since until window (observe libc c ev).1
    IsRemembered-step c ev lo hi r =
        observe_cases libc (IsRemembered path since until window) c ev (record {
          same = r;
          write = λ _ _ _. write_kept c ev hi lo r;
          write_sweep = λ _ _ _.
              sweep_kept (record c { staged = staged_after c ev }) ev hi (write_kept c ev hi lo r);
          run = others _ _;
          download = others _ _;
          connect = λ _ _. others _ _;
          connect_sweep = λ _ _. others _ _;
        })
      where
        others :
            (ds : List Lineage) (ks : List (ConnKey × List ℕ))
            → IsRemembered path since until window (record c { downloads = ds; conns = ks })
        others ds ks = record {
          write = r.write;
          found = r.found;
          from = r.from;
          to = r.to;
          same_window = r.same_window;
        }

    IsRemembered-run :
        (c : Correlator) (evs : List SecurityEvent)
        → All (λ (e : SecurityEvent). (since ≤ e.ts_ns) × (e.ts_ns ≤ until)) evs
        → IsRemembered path since until window c
        → IsRemembered path since until window (observe_all c evs)
    IsRemembered-run c [] times r = r
    IsRemembered-run c (ev ∷ evs) ((lo, hi), times) r =
        IsRemembered-run (observe libc c ev).1 evs times (IsRemembered-step c ev lo hi r)

  -- A staging write is remembered at once.
  IsRemembered-write :
      (path : Bytes) (until : ℕ) (c : Correlator) (ev : SecurityEvent)
      → IsStaging path ev
      → is_temp_path path ≡ true
      → ev.ts_ns ≤ until
      → until ≤ ev.ts_ns + c.window_ns
      → until + c.window_ns < 2 ^ 64
      → IsRemembered path ev.ts_ns until c.window_ns (observe libc c ev).1
  IsRemembered-write path until c ev w temp hi near fits =
      let put : IsRemembered path ev.ts_ns until c.window_ns
          (record c { staged = staged_after c ev }) =
        record {
          write = write_of ev;
          found = rw (find-put bytes_eq bytes_eq_iff, w.names, bytes_eq_refl path);
          from = omega arith;
          to = hi;
          same_window = refl;
        } in
      observe_write libc (IsRemembered path ev.ts_ns until c.window_ns) c ev w.kind w.writes
        (rw w.names (temp_nonempty path temp)) (rw w.names temp) put
        (sweep_kept path ev.ts_ns until c.window_ns near fits
          (record c { staged = staged_after c ev }) ev hi put)

  -- A remembered path that runs in the window is reported.
  remembered_hit :
      (path : Bytes) (since until window : ℕ) (c : Correlator) (ev : SecurityEvent)
      → IsRun path ev
      → is_temp_path path ≡ true
      → ev.ts_ns ≤ since + window
      → until + window < 2 ^ 64
      → IsRemembered path since until window c
      → let h = (observe libc c ev).0 in
        (h.hit ≡ true) × (h.severity ≡ critical) × (h.rule ≡ text "write-exec-chain")
  unfolding observe observe_execve match_execve write_exec_hit
  remembered_hit path since until window c ev x temp near fits r =
      let inside : leb ev.ts_ns ((r.write.ts_ns + c.window_ns) % 2 ^ 64) ≡ true =
        within r.write.ts_ns r.from r.to in
      rw (x.kind, x.names, x.other, temp, r.found, inside) (refl, refl, refl)
    where
      within : (t : ℕ) → since ≤ t → t ≤ until → leb ev.ts_ns ((t + c.window_ns) % 2 ^ 64) ≡ true
      within t lo hi = let e = r.same_window in ground arith

  -- A file that was written to a staging directory and runs within the window is reported as a
  -- critical write-exec chain, whatever other events come in between, from whatever state: the
  -- events in between have times between the two, and no time overflows 64 bits with the window.
  pub write_exec_detected :
      (c : Correlator) (path : Bytes) (w x : SecurityEvent) (between : List SecurityEvent)
      → IsStaging path w
      → is_temp_path path ≡ true
      → IsRun path x
      → All (λ (e : SecurityEvent). (w.ts_ns ≤ e.ts_ns) × (e.ts_ns ≤ x.ts_ns)) between
      → w.ts_ns ≤ x.ts_ns
      → x.ts_ns ≤ w.ts_ns + c.window_ns
      → x.ts_ns + c.window_ns < 2 ^ 64
      → let h = (observe libc (observe_all c (w ∷ between)) x).0 in
        (h.hit ≡ true) × (h.severity ≡ critical) × (h.rule ≡ text "write-exec-chain")
  write_exec_detected c path w x between staging temp run times order near fits =
      let first = IsRemembered-write path x.ts_ns c w staging temp order near fits in
      let r =
        IsRemembered-run path w.ts_ns x.ts_ns c.window_ns near fits (observe libc c w).1 between
          times first in
      let c' = observe_all c (w ∷ between) in
      remembered_hit path w.ts_ns x.ts_ns c.window_ns c' x run temp near fits r
