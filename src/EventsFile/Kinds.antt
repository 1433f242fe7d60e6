-- ===== src/EventsFile/Kinds.antt =====
-- The three kinds of recorded lines, as `format_line` of common/events_file.h prints them and `parse` reads
-- them back.
use pqc_edr.Base.{
  ℕ, ◌^◌, ◌<◌, ◌≡◌, ◌≢◌, refl, ap, ◌∙◌, Bool, true, false, Bool-cases, inl, inr, ◌⊎◌, ◌%◌, ltb,
  is_empty, drop, some, [], ◌∷◌, ◌++◌, replicate, All, All-append, if◌then◌else◌, arith,
}
use pqc_edr.Base.Words.{Bytes}
use pqc_edr.Base.Text.{text, c_string, decimal, bytes_eq, bytes_eq_iff}
use pqc_edr.Event.{
  SecurityEvent, evt_execve, evt_tcp_connect, evt_file_open, fa_write, fa_create, fa_sensitive,
  fa_exec, has_access, filename_len,
}
use pqc_edr.Agent.Synthetic.{into_array}
use pqc_edr.EventsFile.{Numbers, encode_field, path_text, access_to_str}
use pqc_edr.EventsFile.Tokens.{is_space, read_token}
use pqc_edr.EventsFile.Parser.{
  decode_field, read_endpoint, read_file, done, parse_execve, execve_line, parse_connect,
  connect_line, address_line, parse_fileopen, fileopen_line,
}
use pqc_edr.EventsFile.Fields.{HexLaws, IsTokenChar, IsEnd, read_token_lem, field_roundtrip}
use pqc_edr.EventsFile.Access.{access_roundtrip}
use pqc_edr.EventsFile.Words.{read_token-lead, space_ends}
use pqc_edr.EventsFile.Ancestry.{DecimalLaws, IsKept}
use pqc_edr.EventsFile.RoundTrip.{one_space}

-- A path that a recording keeps: none, or a text that is not "-", which stands for none.
abbrev pub IsKeptPath : Bytes → Type 0
IsKeptPath path = (path ≡ []) ⊎ (IsKept filename_len path × (path ≢ 45 ∷ []))

flag-AreTokenChars :
    (b : Bool) (s : Bytes) → All IsTokenChar s → All IsTokenChar (if b then s else [])
flag-AreTokenChars true s h = h
flag-AreTokenChars false s h = tt

or_dash :
    (o : Bytes)
    → All IsTokenChar o
    → (c : ℕ) × (s : Bytes) × ((if is_empty o then text "-" else o) ≡ c ∷ s)
      × All IsTokenChar (c ∷ s)
unfolding text is_space
or_dash [] h = (45, [], refl, ((refl, refl), tt))
or_dash (c ∷ o) h = (c, o, refl, h)

-- The letters of an access are a token.
pub access_to_str-token :
    (a : ℕ) → (c : ℕ) × (s : Bytes) × (access_to_str a ≡ c ∷ s) × All IsTokenChar (c ∷ s)
unfolding access_to_str text is_space
access_to_str-token a =
    let flag = λ (mask c : ℕ). if has_access a mask then c ∷ [] else [] in
    let w = flag-AreTokenChars (has_access a fa_write) (119 ∷ []) ((refl, refl), tt) in
    let c = flag-AreTokenChars (has_access a fa_create) (99 ∷ []) ((refl, refl), tt) in
    let s = flag-AreTokenChars (has_access a fa_sensitive) (115 ∷ []) ((refl, refl), tt) in
    let x = flag-AreTokenChars (has_access a fa_exec) (120 ∷ []) ((refl, refl), tt) in
    or_dash
      (flag fa_write 119 ++ (flag fa_create 99 ++ (flag fa_sensitive 115 ++ flag fa_exec 120)))
      (All-append IsTokenChar _ _ w (All-append IsTokenChar _ _ c (All-append IsTokenChar _ _ s x)))

module _ (lib : Numbers) (hex : HexLaws lib) (numbers : DecimalLaws lib) where
  pub execve_fields :
      (got : SecurityEvent) (f rest : Bytes)
      → IsKept filename_len f
      → IsEnd rest
      → parse_execve lib [] got (32 ∷ (encode_field f ++ rest))
        ≡ done lib []
            (record got {
              type = evt_execve;
              execve = record { filename = into_array filename_len (c_string f) };
            })
            rest
  unfolding execve_line
  execve_fields got [] rest k e = absurd (k.some_text refl)
  execve_fields got (c ∷ cs) rest k e =
      let (token, read, decoded) = field_roundtrip lib hex c cs rest k.plain e in
      rw (read_token-lead (encode_field (c ∷ cs) ++ rest), read, decoded) refl

  endpoint_read :
      (addr port : ℕ) (rest : Bytes)
      → addr < 2 ^ 32
      → port < 2 ^ 32
      → IsEnd rest
      → read_endpoint lib (32 ∷ (lib.inet_ntop addr ++ (32 ∷ (decimal port ++ rest))))
        ≡ some (lib.inet_ntop addr, port, rest)
  unfolding read_endpoint
  endpoint_read addr port rest la lp e =
      let (c, s, shown, chars, short) = numbers.prints_address addr la in
      let after = 32 ∷ (decimal port ++ rest) in
      let ip = read_token_lem c s after chars (space_ends (decimal port ++ rest)) in
      let number = numbers.reads 32 port (32 ∷ []) rest lp one_space e in
      rw (shown, read_token-lead ((c ∷ s) ++ after), ip, number) refl

  pub connect_fields :
      (got : SecurityEvent) (addr port : ℕ) (rest : Bytes)
      → addr < 2 ^ 32
      → port < 2 ^ 16
      → IsEnd rest
      → parse_connect lib [] got (32 ∷ (lib.inet_ntop addr ++ (32 ∷ (decimal port ++ rest))))
        ≡ done lib []
            (record got {
              type = evt_tcp_connect;
              tcp = record { daddr = addr; dport = port; family = 2 };
            })
            rest
  unfolding connect_line address_line
  connect_fields got addr port rest la lp e =
      let small : ltb 65535 port ≡ false = ground arith in
      ap (connect_line lib [] got) (endpoint_read addr port rest la (omega arith) e)
      ∙ rw (small, numbers.reads_address addr la) refl

  path_read :
      (path rest : Bytes)
      → IsKeptPath path
      → IsEnd rest
      → (token : Bytes) × (read_token (path_text path ++ rest) ≡ some (token, rest))
        × ((if bytes_eq (decode_field lib token) (text "-")
              then replicate filename_len 0
              else into_array filename_len (c_string (decode_field lib token)))
            ≡ into_array filename_len (c_string path))
  unfolding path_text text decode_field bytes_eq is_space c_string
  path_read [] rest h e = (45 ∷ [], read_token_lem 45 [] rest ((refl, refl), tt) e, refl)
  path_read (c ∷ s) rest (inl empty) e = cc
  path_read (c ∷ s) rest (inr (k, other)) e =
      let (token, read, decoded) = field_roundtrip lib hex c s rest k.plain e in
      let differs : bytes_eq (c ∷ s) (45 ∷ []) ≡ false =
        elim (Bool-cases (bytes_eq (c ∷ s) (45 ∷ []))) [
          | inl same ↦ absurd (other ((bytes_eq_iff (c ∷ s) (45 ∷ [])).0 same))
          | inr distinct ↦ distinct
        ] in
      (token, read, rw (decoded, differs) refl)

  file_read :
      (access ino dev : ℕ) (path rest token : Bytes)
      → ino < 2 ^ 64
      → dev < 2 ^ 64
      → read_token (path ++ rest) ≡ some (token, rest)
      → read_file lib (
          32
          ∷ (access_to_str access
              ++ (32 ∷ (decimal ino ++ (32 ∷ (decimal dev ++ (32 ∷ (path ++ rest))))))))
        ≡ some (access_to_str access, ino, dev, token, rest)
  unfolding read_file
  file_read access ino dev path rest token li ld h =
      let (c, s, shown, chars) = access_to_str-token access in
      let last = 32 ∷ (path ++ rest) in
      let after = 32 ∷ (decimal ino ++ (32 ∷ (decimal dev ++ last))) in
      let letters = read_token_lem c s after chars (space_ends (drop 1 after)) in
      let first =
        numbers.reads 64 ino (32 ∷ []) (32 ∷ (decimal dev ++ last)) li one_space
          (space_ends (decimal dev ++ last)) in
      let second = numbers.reads 64 dev (32 ∷ []) last ld one_space (space_ends (path ++ rest)) in
      rw
        (
          shown,
          read_token-lead ((c ∷ s) ++ after),
          letters,
          first,
          second,
          read_token-lead (path ++ rest),
          h,
        )
        refl

  pub fileopen_fields :
      (got : SecurityEvent) (access ino dev : ℕ) (path rest : Bytes)
      → access < 16
      → ino < 2 ^ 64
      → dev < 2 ^ 32
      → IsKeptPath path
      → got.file.path ≡ replicate filename_len 0
      → IsEnd rest
      → parse_fileopen lib [] got (
          32
          ∷ (access_to_str access
              ++ (32 ∷ (decimal ino ++ (32 ∷ (decimal dev ++ (32 ∷ (path_text path ++ rest))))))))
        ≡ done lib []
            (record got {
              type = evt_file_open;
              file = record {
                path = into_array filename_len (c_string path);
                access = access;
                ino = ino;
                dev = dev;
              };
            })
            rest
  unfolding fileopen_line
  fileopen_fields got access ino dev path rest la li ld hp blank e =
      let (token, read, shown) = path_read path rest hp e in
      let uncut : dev % 2 ^ 32 ≡ dev = omega arith in
      ap (fileopen_line lib [] got)
        (file_read access ino dev (path_text path) rest token li (omega arith) read)
      ∙ rw (access_roundtrip access la, uncut, blank, shown) refl
