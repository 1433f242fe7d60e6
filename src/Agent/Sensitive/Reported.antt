-- ===== src/Agent/Sensitive/Reported.antt =====
-- From `populate_sensitive` of agent/src/main.cpp to the events of agent/bpf/collector.bpf.c.
use pqc_edr.Base.{
  ℕ, ◌+◌, ◌*◌, ◌%◌, ◌^◌, ◌<◌, ◌≤◌, ◌≡◌, ◌⊎◌, ◌∙◌, inl, inr, refl, sym, ap, ap₂, true, false, Option,
  none, some, List, [], ◌∷◌, ◌++◌, length, bit_or, arith,
}
use pqc_edr.Base.Words.{Bytes}
use pqc_edr.Event.{SecurityEvent, has_access}
use pqc_edr.Analyzer.Prefilter.{prefilter, alert}
use pqc_edr.Agent.Collector.{Task, OpenFile, fmode_write, handle_file_open}
use pqc_edr.Agent.Collector.Chain.{IsReported, IsReported-iff, sensitive_open_alerts}
use pqc_edr.Agent.Sensitive.{
  SensKey, FileStat, SensMap, SensMapLaws, watched, key_of, register, register_all,
  populate_sensitive,
}

-- `MKDEV`, the number that the kernel has for a device.
abbrev pub mkdev : ℕ → ℕ → ℕ
mkdev major minor = bit_or (major * 2 ^ 20) minor

key_of-mkdev :
    (st : FileStat)
    → st.major < 2 ^ 12
    → st.minor < 2 ^ 20
    → (key_of st).dev ≡ mkdev st.major st.minor
unfolding key_of
key_of-mkdev st h l =
    let a : st.major * 2 ^ 20 % 2 ^ 32 ≡ st.major * 2 ^ 20 = omega arith in
    let b : st.minor % 2 ^ 20 ≡ st.minor = omega arith in ap₂ bit_or a b

abbrev key : ℕ → ℕ → SensKey
key ino dev = record { ino = ino; dev = dev }

key_eq :
    (st : FileStat) (ino dev : ℕ)
    → st.major < 2 ^ 12
    → st.minor < 2 ^ 20
    → ino ≡ st.ino
    → dev ≡ mkdev st.major st.minor
    → ◌≡◌ {A = SensKey} (key_of st) (record { ino = ino; dev = dev })
key_eq st ino dev maj min e d =
    let same : (key_of st).ino ≡ ino = unfold key_of in sym e in
    ap₂ key same (key_of-mkdev st maj min ∙ sym d)

module _ (stat : Bytes → Option FileStat) (m : SensMap) (laws : SensMapLaws m) where
  register-kept :
      (t : m.Table) (n : ℕ) (o : Option FileStat) (j : SensKey)
      → laws.count t < 64
      → (laws.count (register stat m t n o).0 ≤ laws.count t + 1)
        × (m.lookup t j ≡ true → m.lookup (register stat m t n o).0 j ≡ true)
  unfolding register
  register-kept t n none j room = (omega arith, λ h. h)
  register-kept t n (some st) j room =
      let (u, e, c) = laws.accepts t (key_of st) room in rw e (c, laws.kept t u j (key_of st) e)

  register-found :
      (t : m.Table) (n : ℕ) (o : Option FileStat) (st : FileStat)
      → laws.count t < 64
      → o ≡ some st
      → m.lookup (register stat m t n o).0 (key_of st) ≡ true
  unfolding register
  register-found t n none st room h = cc
  register-found t n (some st') st room h =
      let same : st' ≡ st = cc in
      let (u, e, c) = laws.accepts t (key_of st') room in
      rw (e, ← same) (laws.found t u (key_of st') e)

  register_all-kept :
      (files : List Bytes) (t : m.Table) (n : ℕ) (j : SensKey)
      → laws.count t + length files ≤ 64
      → m.lookup t j ≡ true
      → m.lookup (register_all stat m files t n).0 j ≡ true
  unfolding register_all
  register_all-kept [] t n j room h = h
  register_all-kept (f ∷ files) t n j room h =
      let (count, keeps) = register-kept t n (stat f) j (omega arith) in
      register_all-kept files _ _ j (omega (arith, count)) (keeps h)

  register_all-found :
      (before after : List Bytes) (path : Bytes) (st : FileStat) (t : m.Table) (n : ℕ)
      → stat path ≡ some st
      → laws.count t + length (before ++ path ∷ after) ≤ 64
      → m.lookup (register_all stat m (before ++ path ∷ after) t n).0 (key_of st) ≡ true
  unfolding register_all
  register_all-found [] after path st t n h room =
      let (count, keeps) = register-kept t n (stat path) (key_of st) (omega arith) in
      register_all-kept after _ _ (key_of st) (omega (arith, count))
        (register-found t n (stat path) st (omega arith) h)
  register_all-found (f ∷ before) after path st t n h room =
      let (count, keeps) = register-kept t n (stat f) (key_of st) (omega arith) in
      register_all-found before after path st _ _ h (omega (arith, count))

  -- An open of a watched file becomes an alert: a file of the list, which is the default one where none is
  -- given, that `stat` finds, on a device of the kernel's numbering, is reported by the collector when it
  -- is opened for reading, or for writing with a path that the kernel can give, and the rule filter
  -- alerts on the event. The map is empty before and the list has at most 64 files.
  pub watched_open_alerts :
      (files before after : List Bytes) (path : Bytes) (st : FileStat) (t : m.Table)
      (copy : Bytes → Bytes) (e : SecurityEvent) (task : Task) (f : OpenFile)
      → laws.count t ≡ 0
      → watched files ≡ before ++ path ∷ after
      → length (before ++ path ∷ after) ≤ 64
      → stat path ≡ some st
      → st.major < 2 ^ 12
      → st.minor < 2 ^ 20
      → f.ino ≡ st.ino
      → f.dev ≡ mkdev st.major st.minor
      → f.sensitive
        ≡ m.lookup (populate_sensitive stat m files t).0 (record { ino = f.ino; dev = f.dev })
      → (has_access f.mode fmode_write ≡ false)
        ⊎ ((has_access f.mode fmode_write ≡ true)
            × (buf : Bytes) × (f.scratch ≡ true)
            × (f.d_path ≡ some buf))
      → (ev : SecurityEvent) × (handle_file_open copy (some e) task f ≡ some ev)
        × ((prefilter ev).decision ≡ alert)
  watched_open_alerts files before after path st t copy e task f zero list room found maj min ino
        dev sens opened =
      let registered = register_all-found before after path st t 0 found (omega arith) in
      let listed : m.lookup (populate_sensitive stat m files t).0 (key_of st) ≡ true =
        rw list registered in
      let seen : f.sensitive ≡ true =
        sens
        ∙ ap (m.lookup (populate_sensitive stat m files t).0)
            (sym (key_eq st f.ino f.dev maj min ino dev))
        ∙ listed in
      let reported : IsReported f = elim opened [
        | inl reads ↦ inl (reads, seen)
        | inr (writes, buf, scratch, named) ↦ inr (writes, (buf, scratch, named, inl seen))
      ] in
      let (ev, h) = (IsReported-iff copy e task f).1 reported in
      (ev, h, sensitive_open_alerts copy e task f ev h ∙ rw seen refl)
