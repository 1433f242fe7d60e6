-- ===== src/Analyzer/Correlator/State.antt =====
-- The correlator's state, constants and helpers: analyzer/src/correlator.h and the anonymous namespace of
-- correlator.cpp. A `std::set<uint32_t>` is its ascending list. Times are `uint64_t` and wrap.
use pqc_edr.Base.{
  ℕ, ◌+◌, ◌-◌, ◌^◌, ◌%◌, Bool, false, ◌&&◌, ◌||◌, Option, none, some, List, [], ◌∷◌, ◌++◌, length,
  take, ltb, leb, ◌==◌, is_empty, if◌then◌else◌,
}
use pqc_edr.Base.Words.{Bytes}
use pqc_edr.Base.Text.{text, starts_with, bytes_eq}
use pqc_edr.Event.{SecurityEvent, Ancestor, ancestors}
use pqc_edr.Analyzer.Alert.{Severity, info}

pub record CorrelationHit : Type 0 where
  pub hit : Bool
  pub severity : Severity
  pub rule : Bytes
  pub reason : Bytes

-- `{}`
abbrev pub no_hit : CorrelationHit
no_hit = record { hit = false; severity = info; rule = text ""; reason = text "" }

pub record Lineage : Type 0 where
  pub ts_ns : ℕ
  pub anc : List ℕ
  pub comm : Bytes

pub record StagedWrite : Type 0 where
  pub ts_ns : ℕ
  pub writer : Bytes

pub record ConnKey : Type 0 where
  pub comm : Bytes
  pub daddr : ℕ
  pub dport : ℕ

-- Equality of the tuple's components.
abbrev pub key_eq : ConnKey → ConnKey → Bool
key_eq j k = bytes_eq j.comm k.comm && (j.daddr == k.daddr && j.dport == k.dport)

pub record Correlator : Type 0 where
  pub window_ns : ℕ
  pub beacon_threshold : ℕ
  pub downloads : List Lineage
  pub staged : List (Bytes × StagedWrite)
  pub conns : List (ConnKey × List ℕ)

-- The constructor.
abbrev pub new_correlator : ℕ → ℕ → Correlator
new_correlator window_ns beacon_threshold = record {
  window_ns = window_ns;
  beacon_threshold = beacon_threshold;
  downloads = [];
  staged = [];
  conns = [];
}

abbrev pub max_downloads : ℕ
max_downloads = 64

abbrev pub max_staged : ℕ
max_staged = 512

abbrev pub max_hist_per_key : ℕ
max_hist_per_key = 256

abbrev pub sweep_keys : ℕ
sweep_keys = 4096

-- `kDownloaders`
abbrev pub downloaders : List Bytes
downloaders = text "curl" ∷ text "wget" ∷ []

unfoldable pub is_temp_path : Bytes → Bool
is_temp_path path =
    starts_with (text "/tmp/") path
    || (starts_with (text "/dev/shm/") path || starts_with (text "/var/tmp/") path)

abbrev pub elapsed : ℕ → ℕ → ℕ
elapsed now then' = if leb then' now then now - then' else 0

-- `now > ts + window_ns_` in 64 bits
abbrev pub expired : ℕ → ℕ → ℕ → Bool
expired window now ts = ltb ((ts + window) % 2 ^ 64) now

-- `s.insert(p)` on an ascending list
set_insert : ℕ → List ℕ → List ℕ
set_insert p [] = p ∷ []
set_insert p (q ∷ qs) =
    if ltb p q then p ∷ q ∷ qs else if p == q then q ∷ qs else q ∷ set_insert p qs

insert_pids : List Ancestor → List ℕ → List ℕ
unfolding set_insert
insert_pids [] s = s
insert_pids (a ∷ as') s = insert_pids as' (if ltb 1 a.pid then set_insert a.pid s else s)

unfoldable pub ancestor_set : SecurityEvent → List ℕ
unfolding insert_pids
ancestor_set ev =
    insert_pids (take ancestors ev.anc) (if ltb 1 ev.ppid then set_insert ev.ppid [] else [])

-- `b.count(p)`
count_pid : List ℕ → ℕ → Bool
count_pid [] p = false
count_pid (q ∷ qs) p = p == q || count_pid qs p

unfoldable pub common_ancestor : List ℕ → List ℕ → ℕ
unfolding count_pid
common_ancestor [] b = 0
common_ancestor (p ∷ ps) b = let rest = common_ancestor ps b in if count_pid b p then p else rest

-- `while (!q.empty() && now > q.front() + window_ns_) q.pop_front();`
unfoldable pub drop_expired {ℓ} : {A : Type ℓ} → (A → ℕ) → ℕ → ℕ → List A → List A
drop_expired time window now [] = []
drop_expired time window now (x ∷ xs) =
    let rest = drop_expired time window now xs in
    if expired window now (time x) then rest else x ∷ xs

-- `if (q.size() > limit) q.pop_front();`
unfoldable pub pop_over {ℓ} : {A : Type ℓ} → ℕ → List A → List A
pop_over limit [] = []
pop_over limit (x ∷ xs) = if ltb limit (length (x ∷ xs)) then xs else x ∷ xs

get_last_or : ℕ → List ℕ → ℕ
get_last_or d [] = d
get_last_or d (x ∷ xs) = get_last_or x xs

-- Expired, in the sweep of `conns_`: empty, or out of the window since its last connection.
unfoldable pub history_expired : ℕ → ℕ → List ℕ → Bool
unfolding get_last_or
history_expired window now hist = is_empty hist || expired window now (get_last_or 0 hist)

-- The history of a destination: `conns_[key]`, empty where the key is new.
abbrev pub history_of : Option (List ℕ) → List ℕ
history_of none = []
history_of (some hist) = hist

-- `hist` after the expiry, the new connection and the bound.
unfoldable pub extend_history : ℕ → ℕ → List ℕ → List ℕ
extend_history window now hist =
    pop_over max_hist_per_key (drop_expired (λ (t : ℕ). t) window now hist ++ now ∷ [])
