-- ===== src/EventsFile/Recordable.antt =====
-- The events that a recording of common/events_file.h keeps, and what its parser makes of them.
use pqc_edr.Base.{ℕ, ◌^◌, ◌<◌, ◌≡◌, ◌⊎◌, ◌==◌, some, [], ◌∷◌, map, All, if◌then◌else◌}
use pqc_edr.Base.Words.{Bytes}
use pqc_edr.Base.Text.{c_string}
use pqc_edr.Event.{
  SecurityEvent, evt_execve, evt_tcp_connect, evt_file_open, comm_len, filename_len,
}
use pqc_edr.Agent.Synthetic.{into_array, zero_event}
use pqc_edr.EventsFile.{Numbers, format_line}
use pqc_edr.EventsFile.Parser.{parsed, read_common, event, decode_field, event_line, line_of}
use pqc_edr.EventsFile.Fields.{IsTokenChar}
use pqc_edr.EventsFile.Access.{HasSizes}
use pqc_edr.EventsFile.Words.{words, IsLineChar}
use pqc_edr.EventsFile.Ancestry.{IsKept, IsLineage, again_one}
use pqc_edr.EventsFile.Kinds.{IsKeptPath}

-- The fields of the event's kind can be kept.
abbrev pub IsKeptKind : SecurityEvent → Type 0
IsKeptKind ev =
    ((ev.type ≡ evt_execve) × IsKept filename_len (c_string ev.execve.filename))
    ⊎ ((ev.type ≡ evt_tcp_connect) × (ev.tcp.family ≡ 2))
    ⊎ ((ev.type ≡ evt_file_open) × (ev.file.access < 16) × IsKeptPath (c_string ev.file.path))

-- An event that a recording keeps.
pub record IsRecordable (ev : SecurityEvent) : Type 0 where
  pub kind : IsKeptKind ev
  pub sizes : HasSizes ev
  pub address : ev.tcp.daddr < 2 ^ 32
  pub comm : IsKept comm_len (c_string ev.comm)
  pub lineage : IsLineage ev.anc

-- The event that a recorded one is read as.
abbrev pub base : SecurityEvent → SecurityEvent
base ev = zero_event 0 0 ev.pid ev.ppid (c_string (c_string ev.comm))

abbrev pub as_execve : SecurityEvent → SecurityEvent
as_execve ev = record (base ev) {
  type = evt_execve;
  execve = record { filename = into_array filename_len (c_string (c_string ev.execve.filename)) };
}

abbrev pub as_connect : SecurityEvent → SecurityEvent
as_connect ev = record (base ev) {
  type = evt_tcp_connect;
  tcp = record { daddr = ev.tcp.daddr; dport = ev.tcp.dport; family = 2 };
}

abbrev pub as_fileopen : SecurityEvent → SecurityEvent
as_fileopen ev = record (base ev) {
  type = evt_file_open;
  file = record {
    path = into_array filename_len (c_string (c_string ev.file.path));
    access = ev.file.access;
    ino = ev.file.ino;
    dev = ev.file.dev;
  };
}

abbrev pub again : SecurityEvent → SecurityEvent
again ev =
    let same =
      if ev.type == evt_execve
      then as_execve ev
      else if ev.type == evt_tcp_connect
      then as_connect ev
      else as_fileopen ev in
    record same { anc = map again_one ev.anc }

-- How the line of an event begins and goes on, and what its fields are read as.
pub record HasLine (lib : Numbers) (ev : SecurityEvent) : Type 0 where
  pub k : ℕ
  pub ks : Bytes
  pub lead : Bytes
  pub tail : Bytes
  pub printed : format_line lib ev ≡ words (k ∷ ks) lead ev (c_string ev.comm) tail
  pub word : All IsTokenChar (k ∷ ks)
  pub spaces : All (λ c. c ≡ 32) lead
  pub chars : All IsLineChar tail
  pub start :
      (rest : Bytes)
      → line_of lib [] (some (k ∷ ks, rest)) ≡ event_line lib [] (k ∷ ks) (read_common lib rest)
  pub fields :
      (token : Bytes)
      → decode_field lib token ≡ c_string ev.comm
      → event_line lib [] (k ∷ ks) (some (ev.pid, ev.ppid, token, 32 ∷ tail))
        ≡ parsed (event (again ev) [])
