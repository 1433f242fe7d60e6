-- ===== src/Event.antt =====
-- The event that agent and analyzer share: common/event.h.
-- A `char` array is the list of its bytes. The union `u` is the record of its four views: every
-- function of the program reads only the view that `type` selects, so a statement about all such
-- records covers every union. Padding that nothing reads is left out.
use pqc_edr.Base.{ℕ, Bool, not, List, bit_and, ◌==◌}
use pqc_edr.Base.Words.{Bytes}

abbrev pub comm_len : ℕ
comm_len = 16

abbrev pub filename_len : ℕ
filename_len = 128

abbrev pub ancestors : ℕ
ancestors = 4

-- `enum pqsec_event_type`; the field of an event is any `__u32`.
abbrev pub evt_execve : ℕ
evt_execve = 1

abbrev pub evt_tcp_connect : ℕ
evt_tcp_connect = 2

abbrev pub evt_agent_drop : ℕ
evt_agent_drop = 3

abbrev pub evt_file_open : ℕ
evt_file_open = 4

-- `enum pqsec_file_access`
abbrev pub fa_write : ℕ
fa_write = 1

abbrev pub fa_create : ℕ
fa_create = 2

abbrev pub fa_sensitive : ℕ
fa_sensitive = 4

abbrev pub fa_exec : ℕ
fa_exec = 8

-- `access & mask`, as a condition
abbrev pub has_access : ℕ → ℕ → Bool
has_access access mask = not (bit_and access mask == 0)

pub record Ancestor : Type 0 where
  pub pid : ℕ
  pub comm : Bytes

pub record TcpEvent : Type 0 where
  pub daddr : ℕ
  pub dport : ℕ
  pub family : ℕ

pub record ExecveEvent : Type 0 where
  pub filename : Bytes

pub record FileEvent : Type 0 where
  pub path : Bytes
  pub access : ℕ
  pub ino : ℕ
  pub dev : ℕ

pub record DropEvent : Type 0 where
  pub dropped : ℕ
  pub dropped_total : ℕ
  pub sent_total : ℕ

pub record SecurityEvent : Type 0 where
  pub type : ℕ
  pub pid : ℕ
  pub ppid : ℕ
  pub ts_ns : ℕ
  pub comm : Bytes
  pub anc : List Ancestor
  pub execve : ExecveEvent
  pub tcp : TcpEvent
  pub drop : DropEvent
  pub file : FileEvent
