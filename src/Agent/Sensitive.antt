-- ===== src/Agent/Sensitive.antt =====
-- The list of sensitive files that the agent gives to the collector: `populate_sensitive` of
-- agent/src/main.cpp. `stat` and the map of the kernel are parameters.
pub mod Reported
use pqc_edr.Base.{
  ℕ, ◌+◌, ◌*◌, ◌%◌, ◌^◌, ◌<◌, ◌≤◌, ◌≡◌, Bool, true, Option, none, some, List, [], ◌∷◌, bit_or,
  is_empty, if◌then◌else◌,
}
use pqc_edr.Base.Words.{Bytes}
use pqc_edr.Base.Text.{text}

-- `struct sens_key`; its padding is zero.
pub record SensKey : Type 0 where
  pub ino : ℕ
  pub dev : ℕ

-- What `stat` gives, with the two parts of `st_dev`.
pub record FileStat : Type 0 where
  pub ino : ℕ
  pub major : ℕ
  pub minor : ℕ

-- `bpf_map__update_elem`, `none` where it does not give 0, and `bpf_map_lookup_elem`.
pub record SensMap : Type 1 where
  pub Table : Type 0
  pub update : Table → SensKey → Option Table
  pub lookup : Table → SensKey → Bool

-- What the kernel documents of a hash map with 64 entries.
pub record SensMapLaws (m : SensMap) : Type 0 where
  pub count : m.Table → ℕ
  pub accepts :
      (t : m.Table) (k : SensKey)
      → count t < 64
      → (u : m.Table) × (m.update t k ≡ some u) × (count u ≤ count t + 1)
  pub found : (t u : m.Table) (k : SensKey) → m.update t k ≡ some u → m.lookup u k ≡ true
  pub kept :
      (t u : m.Table) (j k : SensKey)
      → m.update t k ≡ some u
      → m.lookup t j ≡ true
      → m.lookup u j ≡ true

abbrev pub default_files : List Bytes
default_files =
    text "/etc/shadow"
    ∷ text "/etc/gshadow"
    ∷ text "/etc/sudoers"
    ∷ text "/root/.ssh/authorized_keys"
    ∷ []

abbrev pub watched : List Bytes → List Bytes
watched files = if is_empty files then default_files else files

-- The `sens_key` of a file, in 32 bits of `dev`.
unfoldable pub key_of : FileStat → SensKey
key_of st = record { ino = st.ino; dev = bit_or (st.major * 2 ^ 20 % 2 ^ 32) (st.minor % 2 ^ 20) }

module _ (stat : Bytes → Option FileStat) (m : SensMap) where
  -- One round, given what `stat` gave: the map, and how many files have been registered.
  unfoldable pub register : m.Table → ℕ → Option FileStat → m.Table × ℕ
  register t n none = (t, n)
  register t n (some st) = registered (m.update t (key_of st))
    where
      registered : Option m.Table → m.Table × ℕ
      registered none = (t, n)
      registered (some u) = (u, n + 1)

  unfoldable pub register_all : List Bytes → m.Table → ℕ → m.Table × ℕ
  register_all [] t n = (t, n)
  register_all (f ∷ files) t n = let r = register t n (stat f) in register_all files r.0 r.1

  abbrev pub populate_sensitive : List Bytes → m.Table → m.Table × ℕ
  populate_sensitive files t = register_all (watched files) t 0
