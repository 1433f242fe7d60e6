-- ===== src/EventsFile/Fields.antt =====
-- The escaping of fields: `encode_field` and `decode_field` of common/events_file.h.
use pqc_edr.Base.{
  ℕ, ◌/◌, ◌%◌, ◌<◌, ◌≡◌, refl, inl, inr, true, false, Bool-cases, none, some, ◌⊎◌, [], ◌∷◌, ◌++◌,
  All, ◌==◌, if◌then◌else◌, arith,
}
use pqc_edr.Base.Words.{Bytes, AreBytes}
use pqc_edr.EventsFile.{Numbers, is_escaped, hex_digit, encode_field}
use pqc_edr.EventsFile.Tokens.{is_space, break_at, skip_while, read_token}
use pqc_edr.EventsFile.Parser.{decoded, decode_field}

-- What `strtol` documents: it reads two digits, upper-case as `%02X` prints them.
pub record HexLaws (lib : Numbers) : Type 0 where
  pub two_digits :
      (v : ℕ) → v < 256 → lib.strtol_hex (hex_digit (v / 16) ∷ hex_digit (v % 16) ∷ []) ≡ some v

module _ (lib : Numbers) (laws : HexLaws lib) where
  decode_step :
      (c x y : ℕ) (s : Bytes)
      → decode_field lib (c ∷ x ∷ y ∷ s)
        ≡ decoded c
            (if c == 37 then lib.strtol_hex (x ∷ y ∷ []) else none)
            (decode_field lib (x ∷ y ∷ s))
            (decode_field lib s)
  unfolding decode_field
  decode_step c x y s = refl

  decode-plain :
      (c : ℕ) (t : Bytes) → (c == 37) ≡ false → decode_field lib (c ∷ t) ≡ c ∷ decode_field lib t
  unfolding decode_field
  decode-plain c [] h = refl
  decode-plain c (x ∷ []) h = refl
  decode-plain c (x ∷ y ∷ t) h = rw (decode_step c x y t, h) refl

  -- Any text of bytes survives its escaping.
  pub decode-encode_field : (s : Bytes) → AreBytes s → decode_field lib (encode_field s) ≡ s
  unfolding encode_field
  decode-encode_field [] h = unfold decode_field in refl
  decode-encode_field (c ∷ s) (b, h) = elim (Bool-cases (is_escaped c)) [
    | inl e ↦
        rw
          (
            e,
            decode_step 37 (hex_digit (c / 16)) (hex_digit (c % 16)) (encode_field s),
            laws.two_digits c b,
            decode-encode_field s h,
          )
          refl
    | inr e ↦
        let plain : (c == 37) ≡ false = unfold is_escaped in ground arith in
        rw (e, decode-plain c (encode_field s) plain, decode-encode_field s h) refl
  ]

-- No white space, and no '#', which begins a comment.
abbrev pub IsTokenChar : ℕ → Type 0
IsTokenChar c = (is_space c ≡ false) × ((c == 35) ≡ false)

-- A byte that is no vertical tab and no form feed: the white space that `encode_field` leaves.
abbrev pub IsPlain : ℕ → Type 0
IsPlain c = (c < 256) × ((c == 11) ≡ false) × ((c == 12) ≡ false)

hex_digit-IsTokenChar : (d : ℕ) → d < 16 → IsTokenChar (hex_digit d)
unfolding hex_digit is_space
hex_digit-IsTokenChar d h = ground arith

plain-IsTokenChar : (c : ℕ) → IsPlain c → is_escaped c ≡ false → IsTokenChar c
unfolding is_escaped is_space
plain-IsTokenChar c (b, vt, ff) h = ground arith

pub encode_field-AreTokenChars : (s : Bytes) → All IsPlain s → All IsTokenChar (encode_field s)
unfolding encode_field
encode_field-AreTokenChars [] h = tt
encode_field-AreTokenChars (c ∷ s) (p, h) = elim (Bool-cases (is_escaped c)) [
  | inl e ↦ rw e (
    unfold is_space in (refl, refl),
    (
      hex_digit-IsTokenChar (c / 16) (let b = p.0 in omega arith),
      (hex_digit-IsTokenChar (c % 16) (omega arith), encode_field-AreTokenChars s h),
    ),
  )
  | inr e ↦ rw e (plain-IsTokenChar c p e, encode_field-AreTokenChars s h)
]

-- What ends a token.
abbrev pub IsEnd : Bytes → Type 0
IsEnd rest = (rest ≡ []) ⊎ ((d : ℕ) × (more : Bytes) × (rest ≡ d ∷ more) × (is_space d ≡ true))

break_at-token :
    (t rest : Bytes) → All IsTokenChar t → IsEnd rest → break_at is_space (t ++ rest) ≡ (t, rest)
unfolding break_at
break_at-token [] rest h (inl e) = rw e refl
break_at-token [] rest h (inr (d, more, e, space)) = rw (e, space) refl
break_at-token (c ∷ t) rest (p, h) e = rw (p.0, break_at-token t rest h e) refl

pub read_token_lem :
    (c : ℕ) (t rest : Bytes)
    → All IsTokenChar (c ∷ t)
    → IsEnd rest
    → read_token ((c ∷ t) ++ rest) ≡ some (c ∷ t, rest)
unfolding read_token skip_while
read_token_lem c t rest h e = rw (h.0.0, break_at-token (c ∷ t) rest h e) refl

encode_field-cons : (c : ℕ) (s : Bytes) → (d : ℕ) × (t : Bytes) × (encode_field (c ∷ s) ≡ d ∷ t)
unfolding encode_field
encode_field-cons c s = elim (Bool-cases (is_escaped c)) [
  | inl e ↦ (37, hex_digit (c / 16) ∷ hex_digit (c % 16) ∷ encode_field s, rw e refl)
  | inr e ↦ (c, encode_field s, rw e refl)
]

pub plain-AreBytes : (s : Bytes) → All IsPlain s → AreBytes s
plain-AreBytes [] h = tt
plain-AreBytes (c ∷ s) (p, h) = (p.0, plain-AreBytes s h)

-- A field that is printed is read as one token, whatever stands behind it, and decoded to itself. It
-- must not be empty, and must have no vertical tab and no form feed, which are not escaped.
pub field_roundtrip :
    (lib : Numbers) (laws : HexLaws lib) (c : ℕ) (s rest : Bytes)
    → All IsPlain (c ∷ s)
    → IsEnd rest
    → (token : Bytes) × (read_token (encode_field (c ∷ s) ++ rest) ≡ some (token, rest))
      × (decode_field lib token ≡ c ∷ s)
field_roundtrip lib laws c s rest h e =
    let (d, t, printed) = encode_field-cons c s in
    let chars : All IsTokenChar (d ∷ t) = rw printed at (encode_field-AreTokenChars (c ∷ s) h) in
    (
      d ∷ t,
      rw printed (read_token_lem d t rest chars e),
      rw (← printed) (decode-encode_field lib laws (c ∷ s) (plain-AreBytes (c ∷ s) h)),
    )

encode_field-append : (s t : Bytes) → encode_field (s ++ t) ≡ encode_field s ++ encode_field t
unfolding encode_field
encode_field-append [] t = refl
encode_field-append (c ∷ s) t = elim (Bool-cases (is_escaped c)) [
  | inl e ↦ rw (e, encode_field-append s t) refl
  | inr e ↦ rw (e, encode_field-append s t) refl
]

-- A form feed in a field is printed as it is and splits the field: the token that is read back ends
-- before it.
pub form_feed_splits :
    (c : ℕ) (s t : Bytes)
    → All IsPlain (c ∷ s)
    → read_token (encode_field ((c ∷ s) ++ 12 ∷ t))
      ≡ some (encode_field (c ∷ s), 12 ∷ encode_field t)
form_feed_splits c s t h =
    let (d, u, printed) = encode_field-cons c s in
    let chars : All IsTokenChar (d ∷ u) = rw printed at (encode_field-AreTokenChars (c ∷ s) h) in
    let bare : encode_field (12 ∷ t) ≡ 12 ∷ encode_field t =
      unfold encode_field is_escaped in refl in
    rw (encode_field-append (c ∷ s) (12 ∷ t), printed, bare)
      (read_token_lem d u (12 ∷ encode_field t) chars
        (inr (12, encode_field t, refl, unfold is_space in refl)))
