-- ===== src/EventsFile/Parser.antt =====
-- The parser of recorded events: `decode_field`, `parse_ancestry` and `parse` of
-- common/events_file.h. The lines are what `std::getline` gives.
pub mod Reader
unfoldable pub use Reader.*
use pqc_edr.Base.{
  ℕ, zero, suc, ◌+◌, ◌%◌, ◌^◌, Option, none, some, List, [], ◌∷◌, length, drop, ltb, ◌==◌,
  if◌then◌else◌,
}
use pqc_edr.Base.Words.{Bytes}
use pqc_edr.Base.Text.{text, c_string, bytes_eq, starts_with}
use pqc_edr.Event.{
  SecurityEvent, Ancestor, comm_len, filename_len, evt_execve, evt_tcp_connect, evt_file_open,
}
use pqc_edr.Agent.Synthetic.{into_array, zero_event}
use pqc_edr.EventsFile.{Numbers, access_from_str}
use pqc_edr.EventsFile.Tokens.{break_at, read_token, trim, find_after}

-- `Entry::Kind` with the fields of each kind; `expect` is "" where the line has no label.
pub data Entry : Type 0 where
  event : SecurityEvent → Bytes → Entry
  delay : ℕ → Entry
  directive : Bytes → Entry

-- The reasons of `bad`.
pub data Fault : Type 0 where
  bad_delay bad_common bad_execve bad_connect bad_address bad_fileopen bad_kind : Fault

pub data Line : Type 0 where
  skipped : Line
  parsed : Entry → Line
  malformed : Fault → Line

-- The lines that `std::getline` gives of a stream: the last one need not be ended.
abbrev pub push : ℕ → List Bytes → List Bytes
push c [] = (c ∷ []) ∷ []
push c (l ∷ ls) = (c ∷ l) ∷ ls

unfoldable pub getlines : Bytes → List Bytes
getlines [] = []
getlines (c ∷ s) = let rest = getlines s in if c == 10 then [] ∷ rest else push c rest

module _ (lib : Numbers) where
  -- The entry of an event line, where its own fields have been read.
  abbrev pub done : Bytes → SecurityEvent → Bytes → Line
  done expect ev rest = parsed (event (read_options lib (length rest) rest ev) expect)

  -- The rest of each branch, given what its `>>` gave.
  unfoldable pub execve_line : Bytes → SecurityEvent → Option (Bytes × Bytes) → Line
  execve_line expect ev none = malformed bad_execve
  execve_line expect ev (some (file, rest)) =
      done expect
        (record ev {
          type = evt_execve;
          execve = record { filename = into_array filename_len (c_string (decode_field lib file)) };
        })
        rest

  abbrev pub parse_execve : Bytes → SecurityEvent → Bytes → Line
  parse_execve expect ev s = execve_line expect ev (read_token s)

  unfoldable pub address_line : Bytes → SecurityEvent → ℕ → Bytes → Option ℕ → Line
  address_line expect ev port rest none = malformed bad_address
  address_line expect ev port rest (some daddr) =
      done expect
        (record ev {
          type = evt_tcp_connect;
          tcp = record { daddr = daddr; dport = port; family = 2 };
        })
        rest

  unfoldable pub connect_line : Bytes → SecurityEvent → Option (Bytes × ℕ × Bytes) → Line
  connect_line expect ev none = malformed bad_connect
  connect_line expect ev (some (ip, port, rest)) =
      if ltb 65535 port
      then malformed bad_connect
      else address_line expect ev port rest (lib.inet_pton ip)

  abbrev pub parse_connect : Bytes → SecurityEvent → Bytes → Line
  parse_connect expect ev s = connect_line expect ev (read_endpoint lib s)

  unfoldable pub fileopen_line :
      Bytes → SecurityEvent → Option (Bytes × ℕ × ℕ × Bytes × Bytes) → Line
  fileopen_line expect ev none = malformed bad_fileopen
  fileopen_line expect ev (some (acc, ino, dev, path, rest)) =
      let dpath = decode_field lib path in
      done expect
        (record ev {
          type = evt_file_open;
          file = record {
            path =
                if bytes_eq dpath (text "-")
                then ev.file.path
                else into_array filename_len (c_string dpath);
            access = access_from_str acc;
            ino = ino;
            dev = dev % 2 ^ 32;
          };
        })
        rest

  abbrev pub parse_fileopen : Bytes → SecurityEvent → Bytes → Line
  parse_fileopen expect ev s = fileopen_line expect ev (read_file lib s)

  -- A line whose first word is not "delay".
  unfoldable pub event_line : Bytes → Bytes → Option (ℕ × ℕ × Bytes × Bytes) → Line
  event_line expect kind none = malformed bad_common
  event_line expect kind (some (pid, ppid, comm, rest)) =
      let ev = zero_event 0 0 pid ppid (c_string (decode_field lib comm)) in
      if bytes_eq kind (text "execve")
      then parse_execve expect ev rest
      else if bytes_eq kind (text "connect")
      then parse_connect expect ev rest
      else if bytes_eq kind (text "fileopen")
      then parse_fileopen expect ev rest
      else malformed bad_kind

  abbrev pub parse_event : Bytes → Bytes → Bytes → Line
  parse_event expect kind s = event_line expect kind (read_common lib s)

  -- The entry of a delay line, given what `>> ms` gave.
  abbrev pub delay_of : Option (Option ℕ × Bytes) → Line
  delay_of none = malformed bad_delay
  delay_of (some (none, rest)) = malformed bad_delay
  delay_of (some (some ms, rest)) = parsed (delay ms)

  unfoldable pub parse_delay : Bytes → Line
  parse_delay s = delay_of (lib.read_long s)

  -- A line that is a comment: a directive, or nothing.
  abbrev pub comment_of : Bytes → Line
  comment_of [] = skipped
  comment_of (c ∷ s) = if c == 33 then parsed (directive (trim s)) else skipped

  unfoldable pub parse_comment : Bytes → Line
  parse_comment comment = comment_of (trim comment)

  -- `expect:<label>` of a comment
  unfoldable pub label_of : Bytes → Bytes
  label_of comment = elim (find_after (text "expect:") comment) [
    | none ↦ []
    | some s ↦ elim (read_token s) [ none ↦ [] | some r ↦ r.0 ]
  ]

  -- The line, given its first word and its comment.
  unfoldable pub line_of : Bytes → Option (Bytes × Bytes) → Line
  line_of comment none = parse_comment comment
  line_of comment (some (kind, rest)) =
      if bytes_eq kind (text "delay")
      then parse_delay rest
      else parse_event (label_of comment) kind rest

  unfoldable pub parse_line : Bytes → Line
  parse_line line =
      let cut = break_at (λ d. d == 35) line in line_of (drop 1 cut.1) (read_token cut.0)

  -- A round of the loop of `parse`, given the line and what the next rounds give.
  abbrev pub read_on : ℕ → Line → List Entry × Option (ℕ × Fault) → List Entry × Option (ℕ × Fault)
  read_on lineno skipped rest = rest
  read_on lineno (parsed e) rest = (e ∷ rest.0, rest.1)
  read_on lineno (malformed why) rest = ([], some (lineno + 1, why))

  -- `parse`: the entries that the callback gets in order, and the line number and the reason of the
  -- exception that ends it, if one does.
  unfoldable pub parse : ℕ → List Bytes → List Entry × Option (ℕ × Fault)
  parse lineno [] = ([], none)
  parse lineno (l ∷ ls) = read_on lineno (parse_line l) (parse (lineno + 1) ls)
