-- ===== src/Tests/Sensitive.antt =====
-- The theorem on the sensitive files of agent/src/main.cpp at the default list.
use pqc_edr.Base.{
  ◌≡◌, refl, inl, Bool, true, false, ◌&&◌, ◌||◌, Option, none, some, List, [], ◌∷◌, length, ◌==◌,
  arith,
}
use pqc_edr.Base.Words.{Bytes}
use pqc_edr.Base.Text.{text}
use pqc_edr.Event.{SecurityEvent}
use pqc_edr.Analyzer.Prefilter.{prefilter, alert}
use pqc_edr.Agent.Collector.{Task, OpenFile, handle_file_open}
use pqc_edr.Agent.Sensitive.{
  SensKey, FileStat, SensMap, SensMapLaws, register_all, register, key_of,
}
use pqc_edr.Agent.Sensitive.Reported.{mkdev, watched_open_alerts}
use pqc_edr.Tests.Events.{blank}

key_in : List SensKey → SensKey → Bool
key_in [] k = false
key_in (j ∷ t) k = (j.ino == k.ino && j.dev == k.dev) || key_in t k

abbrev toy_map : SensMap
toy_map = record { Table = List SensKey; update = λ t k. some (k ∷ t); lookup = key_in }

key_in-found :
    (t u : List SensKey) (k : SensKey)
    → ◌≡◌ {A = Option (List SensKey)} (some (k ∷ t)) (some u)
    → key_in u k ≡ true
unfolding key_in
key_in-found t u k h = let e : k ∷ t ≡ u = cc in rw (← e) (ground arith)

key_in-kept :
    (t u : List SensKey) (j k : SensKey)
    → ◌≡◌ {A = Option (List SensKey)} (some (k ∷ t)) (some u)
    → key_in t j ≡ true
    → key_in u j ≡ true
unfolding key_in
key_in-kept t u j k h seen = let e : k ∷ t ≡ u = cc in rw (← e) (ground arith)

toy-SensMapLaws : SensMapLaws toy_map
toy-SensMapLaws = record {
  count = λ t. length t;
  accepts = λ t k room. (k ∷ t, refl, omega arith);
  found = key_in-found;
  kept = key_in-kept;
}

-- Every file is number 7 on the device 8:1.
abbrev one_file : Bytes → Option FileStat
one_file path = some (record { ino = 7; major = 8; minor = 1 })

abbrev opened : OpenFile
opened = record {
  mode = 1;
  ino = 7;
  dev = mkdev 8 1;
  sensitive = true;
  scratch = true;
  d_path = none;
}

abbrev reader : Task
reader = record { pid = 5; ppid = 1; now = 9; comm = []; parents = [] }

watched_open_alerts_example :
    (ev : SecurityEvent) × (handle_file_open (λ s. s) (some (blank 1)) reader opened ≡ some ev)
    × ((prefilter ev).decision ≡ alert)
unfolding register_all register key_of key_in text toy-SensMapLaws
watched_open_alerts_example =
    watched_open_alerts one_file toy_map toy-SensMapLaws [] []
      (text "/etc/gshadow" ∷ text "/etc/sudoers" ∷ text "/root/.ssh/authorized_keys" ∷ [])
      (text "/etc/shadow") (record { ino = 7; major = 8; minor = 1 }) [] (λ s. s) (blank 1) reader
      opened refl refl (omega arith) refl (omega arith) (omega arith) refl refl refl (inl refl)
