-- ===== src/EventsFile.antt =====
-- The format of recorded events: common/events_file.h. This file has the fields and the printer of a
-- line; EventsFile/Parser has the parser.
-- What the C and C++ libraries read of a number or an address is the parameter `Numbers`.
pub mod Tokens
pub mod Parser
pub mod Fields
pub mod Access
pub mod Words
pub mod Ancestry
pub mod RoundTrip
pub mod Kinds
pub mod Recordable
pub mod Lines
pub mod Recorded
pub mod Shape
use pqc_edr.Base.{
  ℕ, suc, ◌+◌, ◌-◌, ◌*◌, ◌/◌, ◌%◌, ◌^◌, Bool, true, false, not, ◌&&◌, ◌||◌, Option, none, some,
  List, [], ◌∷◌, ◌++◌, bit_or, ltb, ◌==◌, is_empty, if◌then◌else◌,
}
use pqc_edr.Base.Words.{Bytes}
use pqc_edr.Base.Text.{text, c_string, decimal}
use pqc_edr.Event.{
  SecurityEvent, Ancestor, evt_execve, evt_tcp_connect, evt_file_open, fa_write, fa_create,
  fa_sensitive, fa_exec, has_access,
}
use pqc_edr.Analyzer.Libc.{snprintf}

-- `strtol(s, &end, 16)` as a byte where `*end` is NUL, `strtoul(s, nullptr, 10)`; the value that `>>`
-- reads into an unsigned integer of the given number of bits and the rest of the stream, and into a
-- `long`, `none` inside for a negative one; `inet_pton` and `inet_ntop`.
pub record Numbers : Type 0 where
  pub strtol_hex : Bytes → Option ℕ
  pub strtoul : Bytes → ℕ
  pub read_unsigned : ℕ → Bytes → Option (ℕ × Bytes)
  pub read_long : Bytes → Option (Option ℕ × Bytes)
  pub inet_pton : Bytes → Option ℕ
  pub inet_ntop : ℕ → Bytes

-- A character that `encode_field` escapes: space, '#', '%', tab, newline, carriage return.
unfoldable pub is_escaped : ℕ → Bool
is_escaped c = c == 32 || (c == 35 || (c == 37 || (c == 9 || (c == 10 || c == 13))))

-- A digit of `%02X`
unfoldable pub hex_digit : ℕ → ℕ
hex_digit d = if ltb d 10 then 48 + d else 55 + d

unfoldable pub encode_field : Bytes → Bytes
encode_field [] = []
encode_field (c ∷ s) =
    let rest = encode_field s in
    if is_escaped c then 37 ∷ hex_digit (c / 16) ∷ hex_digit (c % 16) ∷ rest else c ∷ rest

unfoldable pub access_to_str : ℕ → Bytes
access_to_str a =
    let w = if has_access a fa_write then text "w" else [] in
    let c = if has_access a fa_create then text "c" else [] in
    let s = if has_access a fa_sensitive then text "s" else [] in
    let x = if has_access a fa_exec then text "x" else [] in
    let o = w ++ (c ++ (s ++ x)) in if is_empty o then text "-" else o

-- One round of the loop of `access_from_str`.
unfoldable pub access_flag : ℕ → ℕ
access_flag c =
    if c == 119
    then fa_write
    else if c == 99
    then fa_create
    else if c == 115
    then fa_sensitive
    else if c == 120
    then fa_exec
    else 0

unfoldable pub access_loop : ℕ → Bytes → ℕ
access_loop a [] = a
access_loop a (c ∷ s) = access_loop (bit_or a (access_flag c)) s

abbrev pub access_from_str : Bytes → ℕ
access_from_str s = access_loop 0 s

-- `comm.empty() ? "?" : comm`
abbrev pub or_question : Bytes → Bytes
or_question s = if is_empty s then text "?" else s

-- One generation, `anc[i].pid == 0 && anc[i].comm[0] == '\0'` being an empty one.
abbrev pub is_blank : Ancestor → Bool
is_blank a = a.pid == 0 && is_empty (c_string a.comm)

unfoldable pub encode_generations : Bytes → List Ancestor → Bytes
encode_generations o [] = o
encode_generations o (a ∷ anc) =
    let mark = if is_empty o then text " anc:" else text "|" in
    let one = decimal a.pid ++ (text ":" ++ encode_field (or_question (c_string a.comm))) in
    encode_generations (if is_blank a then o else o ++ (mark ++ one)) anc

unfoldable pub encode_ancestry : SecurityEvent → Bytes
encode_ancestry ev = encode_generations [] ev.anc

-- The text of each kind of line, before the buffer of 512 bytes cuts it.
unfoldable pub common_text : SecurityEvent → Bytes
common_text ev =
    decimal ev.pid
    ++ (text " "
        ++ (decimal ev.ppid
            ++ (text " " ++ (encode_field (or_question (c_string ev.comm)) ++ text " "))))

unfoldable pub execve_text : SecurityEvent → Bytes
execve_text ev =
    text "execve  " ++ (common_text ev ++ encode_field (or_question (c_string ev.execve.filename)))

unfoldable pub connect_text : Numbers → SecurityEvent → Bytes
connect_text lib ev =
    text "connect "
    ++ (common_text ev ++ (lib.inet_ntop ev.tcp.daddr ++ (text " " ++ decimal ev.tcp.dport)))

-- `path.empty() ? "-" : encode_field(path)`
unfoldable pub path_text : Bytes → Bytes
path_text path = if is_empty path then text "-" else encode_field path

unfoldable pub fileopen_text : SecurityEvent → Bytes
fileopen_text ev =
    text "fileopen "
    ++ (common_text ev
        ++ (access_to_str ev.file.access
            ++ (text " "
                ++ (decimal ev.file.ino
                    ++ (text " "
                        ++ (decimal ev.file.dev
                            ++ (text " " ++ path_text (c_string ev.file.path))))))))

unfoldable pub format_line : Numbers → SecurityEvent → Bytes
format_line lib ev =
    if ev.type == evt_execve
    then snprintf 512 (execve_text ev) ++ encode_ancestry ev
    else if ev.type == evt_tcp_connect
    then snprintf 512 (connect_text lib ev) ++ encode_ancestry ev
    else if ev.type == evt_file_open
    then snprintf 512 (fileopen_text ev) ++ encode_ancestry ev
    else []
