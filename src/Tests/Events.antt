-- ===== src/Tests/Events.antt =====
-- Concrete events, and a C library for them.
use pqc_edr.Base.{ℕ, []}
use pqc_edr.Base.Words.{Bytes}
use pqc_edr.Base.Text.{text, decimal}
use pqc_edr.Event.{SecurityEvent, evt_execve, evt_tcp_connect, evt_file_open, fa_write}
use pqc_edr.Analyzer.Libc.{Libc}

abbrev pub toy_libc : Libc
toy_libc = record {
  inet_ntop = λ addr. decimal addr;
  seconds_tenths = λ ns. decimal ns;
  seconds_whole = λ ns. decimal ns;
}

abbrev pub blank : ℕ → SecurityEvent
blank ts_ns = record {
  type = 0;
  pid = 42;
  ppid = 1;
  ts_ns = ts_ns;
  comm = text "bash";
  anc = [];
  execve = record { filename = [] };
  tcp = record { daddr = 0; dport = 0; family = 2 };
  drop = record { dropped = 0; dropped_total = 0; sent_total = 0 };
  file = record { path = []; access = 0; ino = 0; dev = 0 };
}

abbrev pub writes : Bytes → ℕ → SecurityEvent
writes path ts_ns = record (blank ts_ns) {
  type = evt_file_open;
  file = record { path = path; access = fa_write; ino = 0; dev = 0 };
}

abbrev pub runs : Bytes → ℕ → SecurityEvent
runs path ts_ns = record (blank ts_ns) { type = evt_execve; execve = record { filename = path } }

-- A connection to 8.8.8.8.
abbrev pub connects : ℕ → ℕ → SecurityEvent
connects dport ts_ns = record (blank ts_ns) {
  type = evt_tcp_connect;
  tcp = record { daddr = 134744072; dport = dport; family = 2 };
}
