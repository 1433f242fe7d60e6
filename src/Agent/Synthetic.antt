-- ===== src/Agent/Synthetic.antt =====
-- The events that the agent makes up without eBPF: `syn_execve`, `syn_tcp` and `run_synthetic` of
-- agent/src/main.cpp. `inet_pton` is a parameter, and the clock gives the time of each event.
use pqc_edr.Base.{ℕ, ◌-◌, Option, some, none, ◌++◌, length, take, replicate}
use pqc_edr.Base.Words.{Bytes}
use pqc_edr.Event.{SecurityEvent, evt_execve, evt_tcp_connect, ancestors, comm_len, filename_len}

-- `strncpy(a, s, size - 1)` into a `char` array of zeros
abbrev pub into_array : ℕ → Bytes → Bytes
into_array size s = take (size - 1) s ++ replicate (size - length (take (size - 1) s)) 0

-- `security_event e{}` with the fields that both functions set
unfoldable pub zero_event : ℕ → ℕ → ℕ → ℕ → Bytes → SecurityEvent
zero_event type now pid ppid comm = record {
  type = type;
  pid = pid;
  ppid = ppid;
  ts_ns = now;
  comm = into_array comm_len comm;
  anc = replicate ancestors (record { pid = 0; comm = replicate comm_len 0 });
  execve = record { filename = replicate filename_len 0 };
  tcp = record { daddr = 0; dport = 0; family = 0 };
  drop = record { dropped = 0; dropped_total = 0; sent_total = 0 };
  file = record { path = replicate filename_len 0; access = 0; ino = 0; dev = 0 };
}

unfoldable pub syn_execve : ℕ → Bytes → Bytes → ℕ → ℕ → SecurityEvent
syn_execve now comm file pid ppid = record (zero_event evt_execve now pid ppid comm) {
  execve = record { filename = into_array filename_len file };
}

-- `none` is the exception for an address that does not parse.
unfoldable pub syn_tcp : (Bytes → Option ℕ) → ℕ → Bytes → Bytes → ℕ → ℕ → ℕ → Option SecurityEvent
syn_tcp inet_pton now comm ip port pid ppid = elim (inet_pton ip) [
  | none ↦ none
  | some daddr ↦ some (record (zero_event evt_tcp_connect now pid ppid comm) {
    tcp = record { daddr = daddr; dport = port; family = 2 };
  })
]
