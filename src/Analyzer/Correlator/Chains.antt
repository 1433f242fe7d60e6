-- ===== src/Analyzer/Correlator/Chains.antt =====
-- The other direction for the write-exec chain of analyzer/src/correlator.cpp: only a staged file that
-- was really written in the window is reported, and a file named like a downloader is not.
use pqc_edr.Base.{
  ℕ, ◌+◌, ◌^◌, ◌%◌, ◌≤◌, ◌≡◌, ◌≢◌, refl, ◌∙◌, ◌⊎◌, inl, inr, true, false, Bool-cases, Option, none,
  some, List, [], ◌∷◌, All, leb, ◌==◌, arith, leb→le,
}
use pqc_edr.Base.Words.{Bytes}
use pqc_edr.Base.Text.{text, c_string, member, bytes_eq, bytes_eq_iff}
use pqc_edr.Event.{SecurityEvent, evt_execve, evt_tcp_connect, evt_file_open, fa_write, has_access}
use pqc_edr.Analyzer.Libc.{Libc}
use pqc_edr.Analyzer.Prefilter.Paths.{basename_of}
use pqc_edr.Analyzer.Correlator.Maps.{find_entry, All-put, All-keep, All-find}
use pqc_edr.Analyzer.Correlator.State.{
  Correlator, StagedWrite, Lineage, downloaders, is_temp_path, new_correlator, common_ancestor,
}
use pqc_edr.Analyzer.Correlator.Cases.{observe_cases, write_of, staged_after, in_window}
use pqc_edr.Analyzer.Correlator.{
  observe, observe_file, observe_execve, observe_connect, match_execve, match_download,
}
use pqc_edr.Analyzer.Correlator.Staging.{IsStaging, observe_all}

abbrev pub Among : SecurityEvent → List SecurityEvent → Type 0
Among e [] = ⊥
Among e (x ∷ xs) = (e ≡ x) ⊎ Among e xs

module _ (libc : Libc) (Seen : SecurityEvent → Type 0) where
  -- The entry comes from a seen write, at its time.
  pub record IsWritten (entry : Bytes × StagedWrite) : Type 0 where
    pub event : SecurityEvent
    pub seen : Seen event
    pub staging : IsStaging entry.0 event
    pub at : entry.1.ts_ns ≡ event.ts_ns

  IsWritten-now :
      (ev : SecurityEvent)
      → Seen ev
      → ev.type ≡ evt_file_open
      → has_access ev.file.access fa_write ≡ true
      → IsWritten (c_string ev.file.path, write_of ev)
  IsWritten-now ev seen kind writes = record {
    event = ev;
    seen = seen;
    staging = record { kind = kind; writes = writes; names = refl };
    at = refl;
  }

  IsWritten-step :
      (c : Correlator) (ev : SecurityEvent)
      → Seen ev
      → All IsWritten c.staged
      → All IsWritten (observe libc c ev).1.staged
  IsWritten-step c ev seen a =
      let put =
        λ (kind : ev.type ≡ evt_file_open) (writes : has_access ev.file.access fa_write ≡ true).
          All-put bytes_eq bytes_eq_iff IsWritten (c_string ev.file.path) (write_of ev) c.staged a
            (IsWritten-now ev seen kind writes) in
      observe_cases libc (λ (d : Correlator). All IsWritten d.staged) c ev
        (record {
          same = a;
          write = λ kind writes _. put kind writes;
          write_sweep = λ kind writes _.
              All-keep IsWritten (in_window c ev) (staged_after c ev) (put kind writes);
          run = a;
          download = a;
          connect = λ _ _. a;
          connect_sweep = λ _ _. a;
        })

  IsWritten-run :
      (c : Correlator) (evs : List SecurityEvent)
      → All Seen evs
      → All IsWritten c.staged
      → All IsWritten (observe_all libc c evs).staged
  IsWritten-run c [] seen a = a
  IsWritten-run c (ev ∷ evs) (now, later) a =
      IsWritten-run (observe libc c ev).1 evs later (IsWritten-step c ev now a)

  -- The window of the correlator never changes.
  window_run :
      (c : Correlator) (evs : List SecurityEvent) → (observe_all libc c evs).window_ns ≡ c.window_ns
  window_run c [] = refl
  window_run c (ev ∷ evs) = window_run (observe libc c ev).1 evs ∙ window_step
    where
      window_step : (observe libc c ev).1.window_ns ≡ c.window_ns
      window_step =
          observe_cases libc (λ (d : Correlator). d.window_ns ≡ c.window_ns) c ev
            (record {
              same = refl;
              write = λ _ _ _. refl;
              write_sweep = λ _ _ _. refl;
              run = refl;
              download = refl;
              connect = λ _ _. refl;
              connect_sweep = λ _ _. refl;
            })

rule_names :
    (text "" ≢ text "write-exec-chain")
    × (text "download-exec-chain" ≢ text "write-exec-chain")
    × (text "beacon" ≢ text "write-exec-chain")
unfolding text bytes_eq
rule_names = (differ refl, differ refl, differ refl)
  where
    differ : {a b : Bytes} → bytes_eq a b ≡ false → a ≢ b
    differ {a} {b} h e = cc (h, (bytes_eq_iff a b).1 e)

All-Among : (evs : List SecurityEvent) → All (λ (e : SecurityEvent). Among e evs) evs
All-Among [] = tt
All-Among (x ∷ xs) = (inl refl, weaken xs xs (All-Among xs))
  where
    weaken :
        (ys zs : List SecurityEvent)
        → All (λ (e : SecurityEvent). Among e zs) ys
        → All (λ (e : SecurityEvent). Among e (x ∷ zs)) ys
    weaken [] zs a = tt
    weaken (y ∷ ys) zs a = (inr a.0, weaken ys zs a.1)

module _ (libc : Libc) where
  download_rule :
      (now : ℕ) (mine : List ℕ) (ds : List Lineage)
      → (match_download libc now mine ds).rule ≢ text "write-exec-chain"
  unfolding match_download
  download_rule now mine [] = rule_names.0
  download_rule now mine (d ∷ ds) = elim (Bool-cases (common_ancestor d.anc mine == 0)) [
    | inl e ↦ rw e (download_rule now mine ds)
    | inr e ↦ rw e rule_names.1
  ]

  connect_rule :
      (c : Correlator) (x : SecurityEvent)
      → (observe_connect libc c x).0.rule ≢ text "write-exec-chain"
  unfolding observe_connect
  connect_rule c x e = ground (arith, rule_names.0, rule_names.2)

  file_rule :
      (c : Correlator) (x : SecurityEvent)
      → (observe_file libc c x).0.rule ≢ text "write-exec-chain"
  unfolding observe_file
  file_rule c x e = ground (arith, rule_names.0)

  abbrev InWindow : ℕ → ℕ → Option StagedWrite → Type 0
  InWindow window now o = (w : StagedWrite) × (o ≡ some w) × (now ≤ (w.ts_ns + window) % 2 ^ 64)

  match_inv :
      (window now : ℕ) (path : Bytes) (mine : List ℕ) (ds : List Lineage) (o : Option StagedWrite)
      → (match_execve libc window now path mine ds o).rule ≡ text "write-exec-chain"
      → InWindow window now o
  unfolding match_execve
  match_inv window now path mine ds none h = absurd (download_rule now mine ds h)
  match_inv window now path mine ds (some w) h =
      elim (Bool-cases (leb now ((w.ts_ns + window) % 2 ^ 64))) [
        | inl e ↦ (w, refl, leb→le _ _ e)
        | inr e ↦ absurd (download_rule now mine ds (rw e at h))
      ]

  execve_inv :
      (c : Correlator) (x : SecurityEvent)
      → (observe_execve libc c x).0.rule ≡ text "write-exec-chain"
      → (is_temp_path (c_string x.execve.filename) ≡ true)
        × InWindow c.window_ns x.ts_ns (find_entry bytes_eq (c_string x.execve.filename) c.staged)
  unfolding observe_execve
  execve_inv c x h =
      elim (Bool-cases (member (basename_of (c_string x.execve.filename)) downloaders)) [
        | inl e ↦ absurd (rule_names.0 (rw e at h))
        | inr e ↦ elim (Bool-cases (is_temp_path (c_string x.execve.filename))) [
          | inl temp ↦ (temp, match_inv _ _ _ _ _ _ (rw (e, temp) at h))
          | inr other ↦ absurd (rule_names.0 (rw (e, other) at h))
        ]
      ]

  -- What the report of a chain says of the state that it was made in.
  chain_inv :
      (c : Correlator) (x : SecurityEvent)
      → (observe libc c x).0.rule ≡ text "write-exec-chain"
      → (x.type ≡ evt_execve)
        × (is_temp_path (c_string x.execve.filename) ≡ true)
        × InWindow c.window_ns x.ts_ns (find_entry bytes_eq (c_string x.execve.filename) c.staged)
  unfolding observe
  chain_inv c x h = elim (Bool-cases (x.type == evt_execve)) [
    | inl e ↦ let (temp, found) = execve_inv c x (rw e at h) in (ground arith, temp, found)
    | inr e ↦ elim (Bool-cases (x.type == evt_tcp_connect)) [
      | inl f ↦ absurd (connect_rule c x (rw (e, f) at h))
      | inr f ↦ elim (Bool-cases (x.type == evt_file_open)) [
        | inl g ↦ absurd (file_rule c x (rw (e, f, g) at h))
        | inr g ↦ absurd (rule_names.0 (rw (e, f, g) at h))
      ]
    ]
  ]

  -- A reported write-exec chain is a real one: after any events from a fresh correlator, it is reported
  -- of an execution in a staging directory only, and one of the events was a write to that very path,
  -- whose time and the window (a sum in 64 bits) reach the execution.
  pub write_exec_real :
      (window threshold : ℕ) (evs : List SecurityEvent) (x : SecurityEvent)
      → (observe libc (observe_all libc (new_correlator window threshold) evs) x).0.rule
        ≡ text "write-exec-chain"
      → (x.type ≡ evt_execve)
        × (is_temp_path (c_string x.execve.filename) ≡ true)
        × (w : SecurityEvent) × Among w evs
        × IsStaging (c_string x.execve.filename) w
        × (x.ts_ns ≤ (w.ts_ns + window) % 2 ^ 64)
  write_exec_real window threshold evs x h =
      let start = new_correlator window threshold in
      let c = observe_all libc start evs in
      let Seen : SecurityEvent → Type 0 = λ e. Among e evs in
      let (kind, temp, (w, found, near)) = chain_inv c x h in
      let entries = IsWritten-run libc Seen start evs (All-Among evs) tt in
      let origin =
        All-find bytes_eq (IsWritten libc Seen) (λ j k. (bytes_eq_iff j k).0) _ w c.staged entries
          found in
      (
        kind,
        temp,
        origin.event,
        origin.seen,
        origin.staging,
        omega (arith, near, origin.at, window_run libc Seen start evs),
      )
