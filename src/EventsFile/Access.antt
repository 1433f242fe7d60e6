-- ===== src/EventsFile/Access.antt =====
-- The access letters and the printed line of common/events_file.h.
use pqc_edr.Base.{
  ℕ, Bool, true, ◌&&◌, inl, inr, Bool-cases, zero, suc, ◌*◌, ◌^◌, ◌≤◌, ◌<◌, ◌≡◌, refl, [], ◌∷◌,
  ◌++◌, length, length-append, ◌==◌, if◌then◌else◌, take_all, arith,
}
use pqc_edr.Base.Words.{Bytes}
use pqc_edr.Base.Text.{text, c_string, length-decimal, length-c_string}
use pqc_edr.Event.{SecurityEvent, evt_execve, evt_tcp_connect, evt_file_open}
use pqc_edr.EventsFile.{
  access_to_str, access_from_str, access_flag, access_loop, encode_field, or_question, common_text,
  execve_text, connect_text, path_text, fileopen_text, format_line, encode_ancestry, Numbers,
}

-- The masks below a bound, tried one by one.
abbrev survives : ℕ → Bool
survives a = access_from_str (access_to_str a) == a

abbrev all_below : ℕ → Bool
all_below zero = true
all_below (suc n) = survives n && all_below n

survives_below : (n a : ℕ) → all_below n ≡ true → a < n → survives a ≡ true
survives_below zero a h l = absurd (omega arith)
survives_below (suc n) a h l = elim (Bool-cases (a == n)) [
  | inl same ↦ let e : a ≡ n = ground arith in rw e (ground arith)
  | inr other ↦ survives_below n a (ground arith) (ground arith)
]

sixteen_survive : all_below 16 ≡ true
unfolding access_to_str access_loop access_flag text
sixteen_survive = refl

-- Every mask of the four kinds of access survives its letters.
pub access_roundtrip : (a : ℕ) → a < 16 → access_from_str (access_to_str a) ≡ a
access_roundtrip a h = let s = survives_below 16 a sixteen_survive h in ground arith

length-encode_field : (s : Bytes) → length (encode_field s) ≤ 3 * length s
unfolding encode_field
length-encode_field [] = omega arith
length-encode_field (c ∷ s) = ground (arith, length-encode_field s)

length-or_question : (n : ℕ) (s : Bytes) → 0 < n → length s ≤ n → length (or_question s) ≤ n
unfolding text
length-or_question n [] h l = omega arith
length-or_question n (c ∷ s) h l = l

-- A field of a `char` array, escaped.
length-field :
    (n : ℕ) (s : Bytes)
    → 0 < n
    → length s ≤ n
    → length (encode_field (or_question (c_string s))) ≤ 3 * n
length-field n s h l =
    let shown = length-or_question n (c_string s) h (let c = length-c_string s in omega arith) in
    omega (arith, length-encode_field (or_question (c_string s)))

length-access_to_str : (a : ℕ) → length (access_to_str a) ≤ 4
unfolding access_to_str text
length-access_to_str a = ground arith

-- The sizes of the fields of an event as common/event.h declares them.
pub record HasSizes (ev : SecurityEvent) : Type 0 where
  pub pid : ev.pid < 2 ^ 32
  pub ppid : ev.ppid < 2 ^ 32
  pub comm : length ev.comm ≤ 16
  pub filename : length ev.execve.filename ≤ 128
  pub path : length ev.file.path ≤ 128
  pub dport : ev.tcp.dport < 2 ^ 16
  pub ino : ev.file.ino < 2 ^ 64
  pub dev : ev.file.dev < 2 ^ 32

length-common_text : (ev : SecurityEvent) → HasSizes ev → length (common_text ev) ≤ 71
unfolding common_text text
length-common_text ev z =
    let comm = length-field 16 ev.comm (omega arith) z.comm in
    let pid = length-decimal ev.pid 9 (omega (arith, z.pid)) in
    let ppid = length-decimal ev.ppid 9 (omega (arith, z.ppid)) in simp length-append (omega arith)

pub length-execve_text : (ev : SecurityEvent) → HasSizes ev → length (execve_text ev) ≤ 463
unfolding execve_text text
length-execve_text ev z =
    let name = length-field 128 ev.execve.filename (omega arith) z.filename in
    let common = length-common_text ev z in simp length-append (omega arith)

length-connect_text :
    (lib : Numbers) (ev : SecurityEvent)
    → HasSizes ev
    → length (lib.inet_ntop ev.tcp.daddr) ≤ 15
    → length (connect_text lib ev) ≤ 100
unfolding connect_text text
length-connect_text lib ev z addr =
    let port = length-decimal ev.tcp.dport 4 (omega (arith, z.dport)) in
    let common = length-common_text ev z in simp length-append (omega arith)

length-path_text : (s : Bytes) → length s ≤ 128 → length (path_text (c_string s)) ≤ 384
unfolding path_text text
length-path_text s l = ground (arith, length-c_string s, length-encode_field (c_string s))

length-fileopen_text : (ev : SecurityEvent) → HasSizes ev → length (fileopen_text ev) ≤ 501
unfolding fileopen_text text
length-fileopen_text ev z =
    let ino = length-decimal ev.file.ino 19 (omega (arith, z.ino)) in
    let dev = length-decimal ev.file.dev 9 (omega (arith, z.dev)) in
    let letters = length-access_to_str ev.file.access in
    let path = length-path_text ev.file.path z.path in
    let common = length-common_text ev z in simp length-append (omega arith)

-- The buffer of 512 bytes is large enough: `format_line` gives the whole text of every event whose
-- fields have the sizes that common/event.h declares, then its ancestry. `inet_ntop` gives at most 15
-- characters.
pub format_line-whole :
    (lib : Numbers) (ev : SecurityEvent)
    → HasSizes ev
    → length (lib.inet_ntop ev.tcp.daddr) ≤ 15
    → format_line lib ev ≡ (
        if ev.type == evt_execve
        then execve_text ev ++ encode_ancestry ev
        else if ev.type == evt_tcp_connect
        then connect_text lib ev ++ encode_ancestry ev
        else if ev.type == evt_file_open
        then fileopen_text ev ++ encode_ancestry ev
        else [])
unfolding format_line
format_line-whole lib ev z addr =
    let a = take_all 511 (execve_text ev) (omega (arith, length-execve_text ev z)) in
    let b = take_all 511 (connect_text lib ev) (omega (arith, length-connect_text lib ev z addr)) in
    let c = take_all 511 (fileopen_text ev) (omega (arith, length-fileopen_text ev z)) in
    rw (a, b, c) refl
