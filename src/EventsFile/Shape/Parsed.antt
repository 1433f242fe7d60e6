-- ===== src/EventsFile/Shape/Parsed.antt =====
-- The events that `parse` of common/events_file.h gives are values of the C type.
use pqc_edr.Base.{
  ℕ, ◌+◌, ◌^◌, ◌<◌, ◌≡◌, refl, Bool-cases, Option-cases, inl, inr, Option, none, some, List, [],
  ◌∷◌, All, drop, ltb, ◌==◌, arith,
}
use pqc_edr.Base.Words.{Bytes}
use pqc_edr.Base.Text.{text, c_string, bytes_eq}
use pqc_edr.Event.{SecurityEvent, filename_len}
use pqc_edr.Agent.Synthetic.{zero_event}
use pqc_edr.EventsFile.{Numbers}
use pqc_edr.EventsFile.Tokens.{break_at, read_token, trim}
use pqc_edr.EventsFile.Parser.{
  Entry, Line, skipped, parsed, malformed, read_common, read_endpoint, read_file, execve_line,
  address_line, connect_line, fileopen_line, event_line, delay_of, parse_delay, comment_of,
  parse_comment, line_of, parse_line, read_on, parse, decode_field, label_of, Fault,
}
use pqc_edr.EventsFile.Shape.{
  NumberRanges, HasShape, EntryShape, LineShape, length-into_array, access_loop-below,
  zero_event-HasShape, done-LineShape,
}

module _ (lib : Numbers) (ranges : NumberRanges lib) where
  execve_line-LineShape :
      (expect : Bytes) (ev : SecurityEvent) (r : Option (Bytes × Bytes))
      → HasShape ev
      → LineShape (execve_line lib expect ev r)
  unfolding execve_line
  execve_line-LineShape expect ev none h = tt
  execve_line-LineShape expect ev (some (file, rest)) h =
      let size = length-into_array filename_len (c_string (decode_field lib file)) in
      done-LineShape lib ranges expect _ rest (ground (arith, size))

  address_line-LineShape :
      (expect : Bytes) (ev : SecurityEvent) (port : ℕ) (rest : Bytes) (r : Option ℕ)
      → HasShape ev
      → port < 2 ^ 16
      → ((v : ℕ) → r ≡ some v → v < 2 ^ 32)
      → LineShape (address_line lib expect ev port rest r)
  unfolding address_line
  address_line-LineShape expect ev port rest none h p a = tt
  address_line-LineShape expect ev port rest (some v) h p a =
      let small = a v refl in done-LineShape lib ranges expect _ rest (ground (arith, small))

  connect_line-LineShape :
      (expect : Bytes) (ev : SecurityEvent) (r : Option (Bytes × ℕ × Bytes))
      → HasShape ev
      → LineShape (connect_line lib expect ev r)
  unfolding connect_line
  connect_line-LineShape expect ev none h = tt
  connect_line-LineShape expect ev (some (ip, port, rest)) h = elim (Bool-cases (ltb 65535 port)) [
    | inl large ↦ rw large tt
    | inr small ↦ rw small (
        address_line-LineShape expect ev port rest (lib.inet_pton ip) h (ground arith)
          (ranges.address_range ip))
  ]

  fileopen_line-LineShape :
      (expect : Bytes) (ev : SecurityEvent) (r : Option (Bytes × ℕ × ℕ × Bytes × Bytes))
      → HasShape ev
      → ((acc path rest : Bytes) (ino dev : ℕ)
          → r ≡ some (acc, ino, dev, path, rest)
          → ino < 2 ^ 64)
      → LineShape (fileopen_line lib expect ev r)
  unfolding fileopen_line
  fileopen_line-LineShape expect ev none h i = tt
  fileopen_line-LineShape expect ev (some (acc, ino, dev, path, rest)) h i =
      let size = length-into_array filename_len (c_string (decode_field lib path)) in
      let mask = access_loop-below acc 0 (omega arith) in
      let large = i acc path rest ino dev refl in
      done-LineShape lib ranges expect _ rest (ground (arith, size, mask, large))

  read_common-range :
      (s comm rest : Bytes) (pid ppid : ℕ)
      → read_common lib s ≡ some (pid, ppid, comm, rest)
      → (pid < 2 ^ 32) × (ppid < 2 ^ 32)
  unfolding read_common
  read_common-range s comm rest pid ppid h = elim (Option-cases (lib.read_unsigned 32 s)) [
    | inl e ↦ ground (arith, e)
    | inr ((p, s1), e) ↦ elim (Option-cases (lib.read_unsigned 32 s1)) [
      | inl f ↦ ground (arith, e, f)
      | inr ((q, s2), f) ↦ elim (Option-cases (read_token s2)) [
        | inl g ↦ ground (arith, e, f, g)
        | inr ((t, s3), g) ↦
            let hp = ranges.unsigned_range 32 p s s1 e in
            let hq = ranges.unsigned_range 32 q s1 s2 f in ground (arith, e, f, g, hp, hq)
      ]
    ]
  ]

  read_file-range :
      (s acc path rest : Bytes) (ino dev : ℕ)
      → read_file lib s ≡ some (acc, ino, dev, path, rest)
      → ino < 2 ^ 64
  unfolding read_file
  read_file-range s acc path rest ino dev h = elim (Option-cases (read_token s)) [
    | inl e ↦ ground (arith, e)
    | inr ((t, s1), e) ↦ elim (Option-cases (lib.read_unsigned 64 s1)) [
      | inl f ↦ ground (arith, e, f)
      | inr ((i, s2), f) ↦ elim (Option-cases (lib.read_unsigned 64 s2)) [
        | inl g ↦ ground (arith, e, f, g)
        | inr ((d, s3), g) ↦ elim (Option-cases (read_token s3)) [
          | inl k ↦ ground (arith, e, f, g, k)
          | inr ((u, s4), k) ↦
              let hi = ranges.unsigned_range 64 i s1 s2 f in ground (arith, e, f, g, k, hi)
        ]
      ]
    ]
  ]

  event_line-LineShape :
      (expect kind : Bytes) (r : Option (ℕ × ℕ × Bytes × Bytes))
      → ((pid ppid : ℕ) (comm rest : Bytes)
          → r ≡ some (pid, ppid, comm, rest)
          → (pid < 2 ^ 32) × (ppid < 2 ^ 32))
      → LineShape (event_line lib expect kind r)
  unfolding event_line
  event_line-LineShape expect kind none range = tt
  event_line-LineShape expect kind (some (pid, ppid, comm, rest)) range =
      let (p, q) = range pid ppid comm rest refl in
      let ev = zero_event 0 0 pid ppid (c_string (decode_field lib comm)) in
      let h = zero_event-HasShape pid ppid (c_string (decode_field lib comm)) p q in
      elim (Bool-cases (bytes_eq kind (text "execve"))) [
        | inl e ↦ rw e (execve_line-LineShape expect ev (read_token rest) h)
        | inr e ↦ elim (Bool-cases (bytes_eq kind (text "connect"))) [
          | inl f ↦ rw (e, f) (connect_line-LineShape expect ev (read_endpoint lib rest) h)
          | inr f ↦ elim (Bool-cases (bytes_eq kind (text "fileopen"))) [
            | inl g ↦
                rw (e, f, g)
                  (fileopen_line-LineShape expect ev (read_file lib rest) h
                    (λ acc path more ino dev k. read_file-range rest acc path more ino dev k))
            | inr g ↦ rw (e, f, g) tt
          ]
        ]
      ]

  delay_of-LineShape : (r : Option (Option ℕ × Bytes)) → LineShape (delay_of lib r)
  delay_of-LineShape none = tt
  delay_of-LineShape (some (none, rest)) = tt
  delay_of-LineShape (some (some ms, rest)) = tt

  comment_of-LineShape : (s : Bytes) → LineShape (comment_of lib s)
  comment_of-LineShape [] = tt
  comment_of-LineShape (c ∷ s) = elim (Bool-cases (c == 33)) [ inl e ↦ rw e tt | inr e ↦ rw e tt ]

  line_of-LineShape :
      (comment : Bytes) (r : Option (Bytes × Bytes)) → LineShape (line_of lib comment r)
  unfolding line_of parse_delay parse_comment
  line_of-LineShape comment none = comment_of-LineShape (trim comment)
  line_of-LineShape comment (some (kind, rest)) = elim (Bool-cases (bytes_eq kind (text "delay"))) [
    | inl e ↦ rw e (delay_of-LineShape (lib.read_long rest))
    | inr e ↦ rw e (
        event_line-LineShape (label_of lib comment) kind (read_common lib rest)
          (λ pid ppid comm more h. read_common-range rest comm more pid ppid h))
  ]

  read_on-AllShape :
      (lineno : ℕ) (l : Line) (rest : List Entry × Option (ℕ × Fault))
      → LineShape l
      → All EntryShape rest.0
      → All EntryShape (read_on lib lineno l rest).0
  read_on-AllShape lineno skipped rest hl hr = hr
  read_on-AllShape lineno (parsed e) rest hl hr = (hl, hr)
  read_on-AllShape lineno (malformed why) rest hl hr = tt

  -- Whatever lines the parser is given, each event that it gives has arrays of the sizes of a
  -- `security_event`, with four generations, and integers in the ranges of their types, also the events
  -- before a line that it refuses. What `>>` and `inet_pton` give is in the range of its type.
  pub parse-HasShape : (lineno : ℕ) (lines : List Bytes) → All EntryShape (parse lib lineno lines).0
  unfolding parse parse_line
  parse-HasShape lineno [] = tt
  parse-HasShape lineno (l ∷ ls) =
      let cut = break_at (λ d. d == 35) l in
      read_on-AllShape lineno (parse_line lib l) (parse lib (lineno + 1) ls)
        (line_of-LineShape (drop 1 cut.1) (read_token cut.0)) (parse-HasShape (lineno + 1) ls)
