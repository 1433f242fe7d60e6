-- ===== src/EventsFile/Shape.antt =====
-- The shape of the C type `security_event`, which the parts of `parse` of common/events_file.h keep.
pub mod Parsed
use pqc_edr.Base.{
  ℕ, suc, zero, ◌+◌, ◌-◌, ◌%◌, ◌^◌, ◌<◌, ◌≤◌, ◌≡◌, refl, Bool, true, false, ◌&&◌, Bool-cases,
  Option-cases, inl, inr, Option, none, some, List, [], ◌∷◌, ◌++◌, length, take, replicate,
  length-append, length-take, min, bit_or, All, drop, ltb, ◌==◌, if◌then◌else◌, arith,
}
use pqc_edr.Base.Words.{Bytes}
use pqc_edr.Base.Text.{text, c_string, bytes_eq, starts_with}
use pqc_edr.Event.{SecurityEvent, Ancestor, comm_len, filename_len, ancestors}
use pqc_edr.Agent.Synthetic.{into_array, zero_event}
use pqc_edr.EventsFile.{Numbers, access_flag, access_loop, access_from_str}
use pqc_edr.EventsFile.Tokens.{break_at, read_token, trim}
use pqc_edr.EventsFile.Parser.{
  Entry, event, delay, directive, Line, skipped, parsed, malformed, generation, with_colon, fill,
  parse_ancestry, read_options, read_common, read_endpoint, read_file, execve_line, address_line,
  connect_line, fileopen_line, done, event_line, delay_of, parse_delay, comment_of, parse_comment,
  line_of, parse_line, read_on, parse, decode_field, pieces, label_of, Fault,
}

-- The ranges of what `>>` and `inet_pton` give.
pub record NumberRanges (lib : Numbers) : Type 0 where
  pub unsigned_range :
      (bits n : ℕ) (s rest : Bytes) → lib.read_unsigned bits s ≡ some (n, rest) → n < 2 ^ bits
  pub address_range : (s : Bytes) (v : ℕ) → lib.inet_pton s ≡ some v → v < 2 ^ 32

pub record IsAncestor (a : Ancestor) : Type 0 where
  pub pid : a.pid < 2 ^ 32
  pub comm : length a.comm ≡ comm_len

-- The sizes of the arrays of a `security_event` and the ranges of its integers.
pub record HasShape (ev : SecurityEvent) : Type 0 where
  pub pid : ev.pid < 2 ^ 32
  pub ppid : ev.ppid < 2 ^ 32
  pub comm : length ev.comm ≡ comm_len
  pub generations : length ev.anc ≡ ancestors
  pub anc : All IsAncestor ev.anc
  pub filename : length ev.execve.filename ≡ filename_len
  pub path : length ev.file.path ≡ filename_len
  pub daddr : ev.tcp.daddr < 2 ^ 32
  pub dport : ev.tcp.dport < 2 ^ 16
  pub access : ev.file.access < 2 ^ 32
  pub ino : ev.file.ino < 2 ^ 64
  pub dev : ev.file.dev < 2 ^ 32

length-replicate : (n b : ℕ) → length (replicate n b) ≡ n
length-replicate zero b = refl
length-replicate (suc n) b = omega (arith, length-replicate n b)

pub length-into_array : (size : ℕ) (s : Bytes) → length (into_array size s) ≡ size
length-into_array size s =
    let front = length-take (size - 1) s in
    let zeros = length-replicate (size - length (take (size - 1) s)) 0 in
    let both =
      length-append (take (size - 1) s) (replicate (size - length (take (size - 1) s)) 0) in
    omega (arith, front, zeros, both)

-- Every mask of access flags stays below 16.
flags_below : ℕ → Bool
flags_below zero = true
flags_below (suc n) =
    ltb (bit_or n 0) 16
    && (ltb (bit_or n 1) 16
        && (ltb (bit_or n 2) 16 && (ltb (bit_or n 4) 16 && (ltb (bit_or n 8) 16 && flags_below n))))

flags_below_sound : (n a c : ℕ) → flags_below n ≡ true → a < n → bit_or a (access_flag c) < 16
unfolding flags_below access_flag
flags_below_sound zero a c h l = absurd (omega arith)
flags_below_sound (suc n) a c h l = elim (Bool-cases (a == n)) [
  | inl e ↦ let same : a ≡ n = ground arith in rw same (ground arith)
  | inr e ↦ flags_below_sound n a c (ground arith) (ground arith)
]

pub access_loop-below : (s : Bytes) (a : ℕ) → a < 16 → access_loop a s < 16
unfolding access_loop flags_below
access_loop-below [] a h = h
access_loop-below (c ∷ s) a h =
    access_loop-below s (bit_or a (access_flag c)) (flags_below_sound 16 a c refl h)

abbrev pub EntryShape : Entry → Type 0
EntryShape (event ev expect) = HasShape ev
EntryShape (delay ms) = Unit
EntryShape (directive d) = Unit

abbrev pub LineShape : Line → Type 0
LineShape skipped = Unit
LineShape (parsed e) = EntryShape e
LineShape (malformed why) = Unit

zero-IsAncestor : IsAncestor (record { pid = 0; comm = replicate comm_len 0 })
zero-IsAncestor = record { pid = omega arith; comm = refl }

pub zero_event-HasShape :
    (pid ppid : ℕ) (comm : Bytes)
    → pid < 2 ^ 32
    → ppid < 2 ^ 32
    → HasShape (zero_event 0 0 pid ppid comm)
unfolding zero_event
zero_event-HasShape pid ppid comm p q = record {
  pid = p;
  ppid = q;
  comm = length-into_array comm_len comm;
  generations = refl;
  anc = (zero-IsAncestor, (zero-IsAncestor, (zero-IsAncestor, (zero-IsAncestor, tt))));
  filename = length-replicate filename_len 0;
  path = length-replicate filename_len 0;
  daddr = omega arith;
  dport = omega arith;
  access = omega arith;
  ino = omega arith;
  dev = omega arith;
}

abbrev Generations : ℕ → List Ancestor → Type 0
Generations k anc = (length anc ≡ k) × All IsAncestor anc

module _ (lib : Numbers) (ranges : NumberRanges lib) where
  with_colon-Generations :
      (k : ℕ) (pid comm : Bytes) (stay next : List Ancestor)
      → Generations (suc k) stay
      → Generations k next
      → Generations (suc k) (with_colon lib pid comm stay next)
  with_colon-Generations k pid [] stay next hs hn = hs
  with_colon-Generations k pid (colon ∷ comm) stay next hs (l, hn) = (
    omega (arith, l),
    (
      record {
        pid = omega arith;
        comm = length-into_array comm_len (c_string (decode_field lib comm));
      },
      hn,
    ),
  )

  fill-Generations :
      (ps : List Bytes) (anc : List Ancestor)
      → All IsAncestor anc
      → Generations (length anc) (fill lib anc ps)
  unfolding fill
  fill-Generations ps [] h = (refl, tt)
  fill-Generations [] (a ∷ anc) h = (refl, h)
  fill-Generations (p ∷ ps) (a ∷ anc) h =
      let r = break_at (λ d. d == 58) p in
      with_colon-Generations (length anc) r.0 r.1 (fill lib (a ∷ anc) ps) (fill lib anc ps)
        (fill-Generations ps (a ∷ anc) h) (fill-Generations ps anc h.1)

  parse_ancestry-HasShape :
      (tok : Bytes) (ev : SecurityEvent) → HasShape ev → HasShape (parse_ancestry lib tok ev)
  unfolding parse_ancestry
  parse_ancestry-HasShape tok ev h =
      let body = drop 4 tok in
      let (l, anc) = fill-Generations (pieces lib (length body) body) ev.anc h.anc in
      ground (arith, l, anc, h.generations)

  read_options-HasShape :
      (rounds : ℕ) (s : Bytes) (ev : SecurityEvent)
      → HasShape ev
      → HasShape (read_options lib rounds s ev)
  unfolding read_options
  read_options-HasShape zero s ev h = h
  read_options-HasShape (suc rounds) s ev h = elim (Option-cases (read_token s)) [
    | inl e ↦ rw (e, read_options) h
    | inr (r, e) ↦ elim (Bool-cases (starts_with (text "anc:") r.0)) [
      | inl yes_anc ↦
          rw (e, read_options, yes_anc)
            (read_options-HasShape rounds r.1 (parse_ancestry lib r.0 ev)
              (parse_ancestry-HasShape r.0 ev h))
      | inr no_anc ↦ rw (e, read_options, no_anc) (read_options-HasShape rounds r.1 ev h)
    ]
  ]

  pub done-LineShape :
      (expect : Bytes) (ev : SecurityEvent) (rest : Bytes)
      → HasShape ev
      → LineShape (done lib expect ev rest)
  done-LineShape expect ev rest h = read_options-HasShape (length rest) rest ev h
