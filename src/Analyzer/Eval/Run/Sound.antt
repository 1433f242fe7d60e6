-- ===== src/Analyzer/Eval/Run/Sound.antt =====
-- What a successful evaluation means: analyzer/src/eval.cpp.
use pqc_edr.Base.{
  ℕ, ◌+◌, ◌≡◌, ◌≢◌, ◌↔◌, ◌⊎◌, ◌∙◌, refl, sym, ap, ap₂, subst, inl, inr, true, false, List, [], ◌∷◌,
  All, if◌then◌else◌, arith,
}
use pqc_edr.Base.Words.{Bytes}
use pqc_edr.Event.{SecurityEvent}
use pqc_edr.EventsFile.{Numbers}
use pqc_edr.EventsFile.Parser.{Entry}
use pqc_edr.Analyzer.Libc.{Libc}
use pqc_edr.Analyzer.Llm.{LlmClient}
use pqc_edr.Analyzer.Correlator.State.{new_correlator}
use pqc_edr.Analyzer.Eval.{
  Stats, Scenario, new_scenario, basename_noext, on_attack, on_directive, run_file, exit_code,
  gate_fail, is_missed,
}
use pqc_edr.Analyzer.Eval.Gate.{
  IsPassed, HasDetection, outcomes_at, run_file-detects, exit_code_lem,
}
use pqc_edr.Analyzer.Eval.Memo.{Memo, new_memo, memo_llm}
use pqc_edr.Analyzer.Eval.Options.{Options}
use pqc_edr.Analyzer.Eval.Run.{
  FileTree, Ran, exited, uncaught, ran, ◌>>=◌, expand, entries_in, new_stats, run_benign,
  run_attack, run_corpora, evaluate, Counts, count_scenario, count_all,
}

>>=-eq-ran :
    {V W : Type 0} (m : Ran V) (next : V → Ran W) {w : W}
    → (m >>= next) ≡ ran w
    → (v : V) × (m ≡ ran v) × (next v ≡ ran w)
>>=-eq-ran (exited n) next h = cc
>>=-eq-ran (uncaught f) next h = cc
>>=-eq-ran (ran v) next h = (v, refl, h)

module _ {S Time : Type 0} (lib : Numbers) (tree : FileTree) (libc : Libc) (llm : LlmClient S)
    (latency : SecurityEvent → Time) where
  -- Each attack file could be read to its end, and the scenario that its run fills in names a known miss or
  -- one of its events becomes an alert of high or critical severity. The scenarios are those, in order; the
  -- client's state and the statistics go on from file to file.
  abbrev pub IsCovered : List Bytes → S → Stats Time → List Scenario → Type 0
  IsCovered [] s st [] = Unit
  IsCovered [] s st (sc ∷ scen) = ⊥
  IsCovered (f ∷ files) s st [] = ⊥
  IsCovered (f ∷ files) s st (sc ∷ scen) =
      (es : List Entry) × (entries_in lib (tree.contents f) ≡ ran es)
      × (let r =
            run_file libc llm latency on_attack on_directive es s
              (st, new_scenario (basename_noext f)) in
          (sc ≡ r.0.1)
          × ((r.0.1.known_miss ≢ [])
              ⊎ HasDetection
                  (outcomes_at libc llm latency es 1000000000 s (new_correlator 60000000000 3)))
          × IsCovered files r.1 r.0.0 scen)

  run_attack-IsCovered :
      (files : List Bytes) (s : S) (st st' : Stats Time) (scen : List Scenario)
      → run_attack lib tree libc llm latency files s st ≡ ran (scen, st')
      → All IsPassed scen
      → IsCovered files s st scen
  unfolding run_attack
  run_attack-IsCovered [] s st st' [] h p = tt
  run_attack-IsCovered [] s st st' (sc ∷ scen) h p = cc
  run_attack-IsCovered (f ∷ files) s st st' scen h p =
      let (es, he, h1) = >>=-eq-ran (entries_in lib (tree.contents f)) _ h in
      let r =
        run_file libc llm latency on_attack on_directive es s
          (st, new_scenario (basename_noext f)) in
      let (more, hm, h2) = >>=-eq-ran (run_attack lib tree libc llm latency files r.1 r.0.0) _ h1 in
      let same : ◌≡◌ {A = List Scenario} (r.0.1 ∷ more.0) scen = cc in
      let (first, others) = subst (All IsPassed) (sym same) p in
      let detects = run_file-detects libc llm latency (basename_noext f) es s st in
      let covered : (r.0.1.known_miss ≢ [])
          ⊎ HasDetection
              (outcomes_at libc llm latency es 1000000000 s (new_correlator 60000000000 3)) =
        elim first [ inl known ↦ inl known | inr worst ↦ inr (detects.0 worst) ] in
      subst (IsCovered (f ∷ files) s st) same
        (es, he, (refl, covered, run_attack-IsCovered files r.1 r.0.0 more.1 more.0 hm others))

missed : List Scenario → ℕ
missed [] = 0
missed (sc ∷ scen) = let rest = missed scen in if is_missed sc then rest + 1 else rest

count_all-missed :
    (scen : List Scenario) (c : Counts)
    → (count_all scen c).gated + c.gated_ok ≡ (count_all scen c).gated_ok + c.gated + missed scen
unfolding count_all count_scenario missed is_missed
count_all-missed [] c = omega arith
count_all-missed (sc ∷ scen) c =
    let ih = count_all-missed scen (count_scenario sc c) in ground (arith, ih)

gate_fail-missed : (scen : List Scenario) → (gate_fail scen ≡ false) ↔ (missed scen ≡ 0)
unfolding gate_fail missed
gate_fail-missed [] = ((λ h. refl), (λ h. refl))
gate_fail-missed (sc ∷ scen) =
    let (to, from) = gate_fail-missed scen in
    ((λ h. ground (arith, to)), (λ h. ground (arith, from)))

abbrev pub no_counts : Counts
no_counts = record { detected = 0; gated = 0; gated_ok = 0 }

counts-agree :
    (scen : List Scenario)
    → exit_code true scen ≡ 0
    → (count_all scen no_counts).gated ≡ (count_all scen no_counts).gated_ok
unfolding exit_code
counts-agree scen h =
    let passes : gate_fail scen ≡ false = ground arith in
    let none_missed = (gate_fail-missed scen).0 passes in
    omega (arith, count_all-missed scen no_counts, none_missed)

ran-inj : {V : Type 0} {a b : V} → ran a ≡ ran b → a ≡ b
ran-inj h = cc

-- A gated evaluation that exits with 0: both corpora could be run to their end, with the scenarios `r.2` and
-- the benign statistics `r.0`; in particular the attack corpus could be expanded to the files, and the
-- benign one left the memoizing client in the state `m`. From there every attack file could be read to its
-- end, with a new correlator for each; those scenarios are the ones of its files, and each names a known
-- miss or has an event that becomes an alert of high or critical severity. The table counts as many gated
-- scenarios as detected ones among them.
pub evaluate-covers :
    {S Time : Type 0} (lib : Numbers) (tree : FileTree) (libc : Libc) (inner : LlmClient S)
    (latency : SecurityEvent → Time) (o : Options) (s : S)
    → evaluate lib tree libc inner latency o s ≡ ran 0
    → o.gate ≡ true
    → (r : Stats Time × Stats Time × List Scenario) × (run_corpora lib tree libc
          (memo_llm inner o.cap)
          latency
          o
          (new_memo s)
        ≡ ran r)
      × (bfiles : List Bytes) × (expand tree o.benign ≡ ran bfiles)
      × (m : Memo S) × (run_benign lib tree libc
            (memo_llm inner o.cap)
            latency
            bfiles
            (new_memo s)
            new_stats
          ≡ ran (r.0, m))
      × (files : List Bytes) × (expand tree o.attack ≡ ran files)
      × IsCovered lib tree libc (memo_llm inner o.cap) latency files m new_stats r.2
      × ((count_all r.2 no_counts).gated ≡ (count_all r.2 no_counts).gated_ok)
unfolding evaluate run_corpora
evaluate-covers {Time} lib tree libc inner latency o s h gate =
    let llm = memo_llm inner o.cap in
    let (r, hr, code) = >>=-eq-ran (run_corpora lib tree libc llm latency o (new_memo s)) _ h in
    let (bfiles, hb, h1) = >>=-eq-ran (expand tree o.benign) _ hr in
    let (done, hd, h2) =
      >>=-eq-ran (run_benign lib tree libc llm latency bfiles (new_memo s) new_stats) _ h1 in
    let (files, ha, h3) = >>=-eq-ran (expand tree o.attack) _ h2 in
    let (scored, hs, h4) =
      >>=-eq-ran (run_attack lib tree libc llm latency files done.1 new_stats) _ h3 in
    let whole : (done.0, scored.1, scored.0) ≡ r = ran-inj h4 in
    let scen : scored.0 ≡ r.2 = ap (λ (x : Stats Time × Stats Time × List Scenario). x.2) whole in
    let benign : done.0 ≡ r.0 = ap (λ (x : Stats Time × Stats Time × List Scenario). x.0) whole in
    let zero : exit_code true scored.0 ≡ 0 = ap₂ exit_code (sym gate) scen ∙ ran-inj code in
    let passed : All IsPassed scored.0 = elim ((exit_code_lem true scored.0).0 zero) [
      | inl off ↦ cc
      | inr ps ↦ ps
    ] in
    let covered =
      run_attack-IsCovered lib tree libc llm latency files done.1 new_stats scored.1 scored.0 hs
        passed in
    (
      r,
      hr,
      bfiles,
      hb,
      done.1,
      hd ∙ ap (λ (x : Stats Time). ran (x, done.1)) benign,
      files,
      ha,
      subst (IsCovered lib tree libc llm latency files done.1 new_stats) scen covered,
      subst
          (λ (l : List Scenario). (count_all l no_counts).gated ≡ (count_all l no_counts).gated_ok)
          scen (counts-agree scored.0 zero),
    )
