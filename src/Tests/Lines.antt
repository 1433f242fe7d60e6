-- ===== src/Tests/Lines.antt =====
-- The theorems on common/events_file.h at small inputs, with a reader of numbers as `Numbers`.
use pqc_edr.Base.{
  ℕ, ◌+◌, ◌-◌, ◌*◌, ◌/◌, ◌%◌, ap, sym, ◌∙◌, ltb, lt→ltb, ◌^◌, Bool-cases, inl, inr, ◌≤◌, ◌<◌, ◌≡◌,
  refl, true, false, Option, some, none, [], ◌∷◌, ◌++◌, append-nil, All, length, ◌==◌,
  if◌then◌else◌, arith,
}
use pqc_edr.Base.Words.{Bytes}
use pqc_edr.Base.Text.{text, decimal, length-decimal, fold-decimal, head-decimal}
use pqc_edr.Event.{evt_execve, evt_tcp_connect, evt_file_open}
use pqc_edr.EventsFile.{
  Numbers, hex_digit, encode_field, format_line, execve_text, connect_text, fileopen_text,
  encode_ancestry,
}
use pqc_edr.EventsFile.Tokens.{is_space, skip_while, read_token}
use pqc_edr.EventsFile.Parser.{decode_field, parse}
use pqc_edr.EventsFile.Fields.{HexLaws, IsEnd, field_roundtrip, form_feed_splits}
use pqc_edr.EventsFile.Ancestry.{DecimalLaws}
use pqc_edr.EventsFile.Words.{decimal-AreTokenChars}
use pqc_edr.EventsFile.Shape.{NumberRanges, EntryShape}
use pqc_edr.EventsFile.Shape.Parsed.{parse-HasShape}
use pqc_edr.EventsFile.Access.{HasSizes, format_line-whole}
use pqc_edr.Tests.Events.{blank}

-- Reads the digits that `hex_digit` prints.
abbrev pub nibble : ℕ → ℕ
nibble d = if ltb d 65 then d - 48 else d - 55

abbrev pub toy_hex : Bytes → Option ℕ
toy_hex [] = none
toy_hex (a ∷ []) = none
toy_hex (a ∷ b ∷ s) = some (nibble a * 16 + nibble b)

unfoldable pub scan : ℕ → Bytes → ℕ × Bytes
scan v [] = (v, [])
scan v (c ∷ s) =
    let more = scan (v * 10 + (c - 48)) s in
    if ltb c 48 then (v, c ∷ s) else if ltb 57 c then (v, c ∷ s) else more

abbrev pub in_range : ℕ → ℕ × Bytes → Option (ℕ × Bytes)
in_range bits r = if ltb r.0 (2 ^ bits) then some r else none

abbrev pub number_of : Option (ℕ × Bytes) → Option ℕ
number_of none = none
number_of (some r) = some r.0

-- An address is printed as its number.
abbrev pub toy_numbers : Numbers
toy_numbers = record {
  strtol_hex = toy_hex;
  strtoul = λ s. (scan 0 s).0;
  read_unsigned = λ bits s. in_range bits (scan 0 (skip_while is_space s));
  read_long = λ s. let r = scan 0 (skip_while is_space s) in some (some r.0, r.1);
  inet_pton = λ s. number_of (in_range 32 (scan 0 s));
  inet_ntop = decimal;
}

nibble-hex_digit : (d : ℕ) → d < 16 → nibble (hex_digit d) ≡ d
unfolding hex_digit
nibble-hex_digit d h = ground arith

pub toy-HexLaws : HexLaws toy_numbers
toy-HexLaws = record {
  two_digits = λ v b.
      rw (nibble-hex_digit (v / 16) (omega arith), nibble-hex_digit (v % 16) (omega arith))
        (ap (λ (k : ℕ). some k) (omega arith));
}

field_roundtrip_example :
    (token : Bytes) × (read_token (encode_field (35 ∷ 97 ∷ []) ++ 32 ∷ 49 ∷ [])
      ≡ some (token, 32 ∷ 49 ∷ []))
    × (decode_field toy_numbers token ≡ 35 ∷ 97 ∷ [])
unfolding is_space
field_roundtrip_example =
    field_roundtrip toy_numbers toy-HexLaws 35 (97 ∷ []) (32 ∷ 49 ∷ [])
      ((omega arith, refl, refl), ((omega arith, refl, refl), tt)) (inr (32, 49 ∷ [], refl, refl))

scan-digit : (v d : ℕ) (s : Bytes) → d < 10 → scan v ((48 + d) ∷ s) ≡ scan (v * 10 + d) s
unfolding scan
scan-digit v d s h =
    let low : ltb (48 + d) 48 ≡ false = ground arith in
    let high : ltb 57 (48 + d) ≡ false = ground arith in
    let digit : 48 + d - 48 ≡ d = omega arith in rw (low, high, digit) refl

scan-end : (v : ℕ) (rest : Bytes) → IsEnd rest → scan v rest ≡ (v, rest)
unfolding scan is_space
scan-end v rest (inl e) = rw e refl
scan-end v rest (inr (d, more, e, space)) =
    let stops : (ltb d 48 ≡ true) = ground arith in rw (e, stops) refl

skip-lead :
    (lead s : Bytes)
    → All (λ c. is_space c ≡ true) lead
    → skip_while is_space (lead ++ s) ≡ skip_while is_space s
unfolding skip_while
skip-lead [] s h = refl
skip-lead (c ∷ lead) s (p, h) = rw (p, skip-lead lead s h) refl

skip-decimal : (n : ℕ) (rest : Bytes) → skip_while is_space (decimal n ++ rest) ≡ decimal n ++ rest
unfolding skip_while
skip-decimal n rest =
    let (d, ds, l, e) = head-decimal n in
    let solid : is_space (48 + d) ≡ false = unfold is_space in ground arith in rw (e, solid) refl

scan_whole : (n : ℕ) → scan 0 (decimal n) ≡ (n, [])
scan_whole n =
    let e = append-nil (decimal n) in
    ap (scan 0) (sym e) ∙ fold-decimal scan scan-digit n [] ∙ scan-end n [] (inl refl)

pub toy-DecimalLaws : DecimalLaws toy_numbers
toy-DecimalLaws = record {
  reads = λ bits n lead rest l spaces e.
      rw
        (
          skip-lead lead (decimal n ++ rest) spaces,
          skip-decimal n rest,
          fold-decimal scan scan-digit n rest,
          scan-end n rest e,
          lt→ltb n (2 ^ bits) l,
        )
        refl;
  reads_long = λ n lead l spaces.
      let e = append-nil (decimal n) in
      rw
        (
          skip-lead lead (decimal n) spaces,
          ← e,
          skip-decimal n [],
          fold-decimal scan scan-digit n [],
        )
        (rw (scan-end n [] (inl refl)) refl);
  converts = λ n l. ap (λ (r : ℕ × Bytes). r.0) (scan_whole n);
  prints_address = λ addr l.
      let (d, ds, small, e) = head-decimal addr in
      let chars = decimal-AreTokenChars addr in
      let short = length-decimal addr 9 (omega arith) in
      (48 + d, ds, e, rw e at chars, let short' = rw e at short in omega arith);
  reads_address = λ addr l. rw (scan_whole addr, lt→ltb addr (2 ^ 32) l) refl;
}

form_feed_splits_example :
    read_token (encode_field ((97 ∷ []) ++ 12 ∷ 98 ∷ []))
    ≡ some (encode_field (97 ∷ []), 12 ∷ encode_field (98 ∷ []))
form_feed_splits_example = form_feed_splits 97 [] (98 ∷ []) ((omega arith, refl, refl), tt)

blank-HasSizes : HasSizes (blank 1)
unfolding text
blank-HasSizes = record {
  pid = omega arith;
  ppid = omega arith;
  comm = omega arith;
  filename = omega arith;
  path = omega arith;
  dport = omega arith;
  ino = omega arith;
  dev = omega arith;
}

zero_address : length (decimal 0) ≤ 15
zero_address = let short = length-decimal 0 0 (omega arith) in omega arith

format_line-whole_example : format_line toy_numbers (blank 1) ≡ (
    if (blank 1).type == evt_execve
    then execve_text (blank 1) ++ encode_ancestry (blank 1)
    else if (blank 1).type == evt_tcp_connect
    then connect_text toy_numbers (blank 1) ++ encode_ancestry (blank 1)
    else if (blank 1).type == evt_file_open
    then fileopen_text (blank 1) ++ encode_ancestry (blank 1)
    else [])
format_line-whole_example = format_line-whole toy_numbers (blank 1) blank-HasSizes zero_address

toy-NumberRanges : NumberRanges toy_numbers
toy-NumberRanges = record {
  unsigned_range = λ bits n s rest h.
      let r = scan 0 (skip_while is_space s) in
      elim (Bool-cases (ltb r.0 (2 ^ bits))) [
        | inl e ↦ ground (arith, e, h)
        | inr e ↦ ground (arith, e, h)
      ];
  address_range = λ s v h.
      let r = scan 0 s in
      elim (Bool-cases (ltb r.0 (2 ^ 32))) [
        | inl e ↦ ground (arith, e, h)
        | inr e ↦ ground (arith, e, h)
      ];
}

parse-HasShape_example :
    All EntryShape
      (parse toy_numbers 0 (text "execve 5 4 bash /bin/ls anc:3:sh" ∷ text "delay 20" ∷ [])).0
parse-HasShape_example =
    parse-HasShape toy_numbers toy-NumberRanges 0
      (text "execve 5 4 bash /bin/ls anc:3:sh" ∷ text "delay 20" ∷ [])
