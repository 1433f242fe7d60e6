-- ===== src/Crypto/Wire/Hello.antt =====
-- The payload of ClientHello and ServerHello in crypto/src/wire.cpp: its fields and its readers.
use pqc_edr.Base.{
  ℕ, suc, ◌+◌, ◌-◌, ◌≡◌, ◌≢◌, ◌≤◌, refl, ap, [], ◌++◌, length, take, drop, arith, length-append,
  take-append, drop-append, drop-drop, append_assoc, take-append-drop, take_all, length-take,
  length-drop, ltb, ltb_false→le, is_empty, Bool, true, false, Bool-cases, inl, inr, if◌then◌else◌,
}
use pqc_edr.Base.Words.{Bytes}
use pqc_edr.Crypto.Result.{
  Error, truncated, missing_kem_key, missing_ciphertext, wire, Result, ok, err, throw_if-ok,
}
use pqc_edr.Crypto.Wire.{
  client_hello, server_hello, ClientHello, ServerHello, parse_client_hello, parse_server_hello,
}
use pqc_edr.Crypto.Wire.Frames.{framed, open-framed}

-- The payload of a hello: 32 bytes, 32 bytes, and the rest, which must not be empty.
abbrev pub split_hello {ℓ} : {A : Type ℓ} → Error → (Bytes → Bytes → Bytes → A) → Bytes → Result A
split_hello missing build p =
    if ltb (length p) 64
    then err (wire truncated)
    else if is_empty (drop 64 p)
    then err missing
    else ok (build (take 32 p) (take 32 (drop 32 p)) (drop 64 p))

take_rest : (p : Bytes) → take (length p + 4 - 68) (drop 64 p) ≡ drop 64 p
take_rest p = take_all _ (drop 64 p) (omega (arith, length-drop 64 p))

-- The three lengths that a reader of a hello tells apart, as its tests.
data Length (n : ℕ) : Type 0 where
  short : ltb (n + 4) 36 ≡ true → ltb n 64 ≡ true → Length n
  middle : ltb (n + 4) 36 ≡ false → ltb (n + 4) 68 ≡ true → ltb n 64 ≡ true → Length n
  long :
      ltb (n + 4) 36 ≡ false
      → ltb (n + 4) 68 ≡ false
      → ltb (n + 4) (68 + (n + 4 - 68)) ≡ false
      → ltb n 64 ≡ false
      → Length n

Length-cases : (n : ℕ) → Length n
Length-cases n = elim (Bool-cases (ltb n 32)) [
  | inl low ↦ short (ground arith) (ground arith)
  | inr high ↦ elim (Bool-cases (ltb n 64)) [
    | inl low ↦ middle (ground arith) (ground arith) low
    | inr rest ↦ long (ground arith) (ground arith) (ground arith) rest
  ]
]

pub header_length : (n : ℕ) → suc (suc (suc (suc n))) ≡ n + 4
header_length n = omega arith

abbrev pub client_fields : Bytes → Bytes → Bytes → ClientHello
client_fields a b c = record { client_random = a; x25519_pub = b; mlkem_pub = c }

abbrev pub server_fields : Bytes → Bytes → Bytes → ServerHello
server_fields a b c = record { server_random = a; x25519_pub = b; mlkem_ct = c }

-- What `parse_client_hello` does with the payload of a well-formed frame.
pub parse-framed_client :
    (p : Bytes)
    → length p ≤ 0xffff
    → parse_client_hello (framed client_hello p)
      ≡ split_hello (wire missing_kem_key) client_fields p
unfolding parse_client_hello
parse-framed_client p fits = rw (open-framed client_hello p fits) (elim (Length-cases (length p)) [
  | short a b ↦ simp (header_length, a, b)
  | middle a b c ↦ simp (header_length, a, b, c)
  | long a b c d ↦
      simp (header_length, a, b, c, d, take_rest) (throw_if-ok (is_empty (drop 64 p)) _ _)
])

-- What `parse_server_hello` does with the payload of a well-formed frame.
pub parse-framed_server :
    (p : Bytes)
    → length p ≤ 0xffff
    → parse_server_hello (framed server_hello p)
      ≡ split_hello (wire missing_ciphertext) server_fields p
unfolding parse_server_hello
parse-framed_server p fits = rw (open-framed server_hello p fits) (elim (Length-cases (length p)) [
  | short a b ↦ simp (header_length, a, b)
  | middle a b c ↦ simp (header_length, a, b, c)
  | long a b c d ↦
      simp (header_length, a, b, c, d, take_rest) (throw_if-ok (is_empty (drop 64 p)) _ _)
])

-- A payload put together from its fields splits into them again.
pub split_hello-join {ℓ} :
    {A : Type ℓ} (e : Error) (build : Bytes → Bytes → Bytes → A) (a b c : Bytes)
    → length a ≡ 32
    → length b ≡ 32
    → c ≢ []
    → split_hello e build ((a ++ b) ++ c) ≡ ok (build a b c)
split_hello-join e build a b c ha hb hc =
    let fits : ltb (length ((a ++ b) ++ c)) 64 ≡ false =
      ground (arith, length-append (a ++ b) c, length-append a b) in
    let last : drop 64 ((a ++ b) ++ c) ≡ c =
      drop-append 64 (a ++ b) c (omega (arith, length-append a b)) in
    let first : take 32 ((a ++ b) ++ c) ≡ a =
      rw (append_assoc a b c) (take-append 32 a (b ++ c) ha) in
    let second : take 32 (drop 32 ((a ++ b) ++ c)) ≡ b =
      rw (append_assoc a b c, drop-append 32 a (b ++ c) ha) (take-append 32 b c hb) in
    let nonempty : is_empty c ≡ false = ground arith in simp (fits, last, first, second, nonempty)

branches {ℓ} :
    {A : Type ℓ} (b c : Bool) (d e : Error) (x m : A)
    → (if b then err d else if c then err e else ok x) ≡ ok m
    → (b ≡ false) × (c ≡ false) × (x ≡ m)
branches true c d e x m h = cc
branches false true d e x m h = cc
branches false false d e x m h = (refl, refl, cc)

pub rejoin : (p : Bytes) → (take 32 p ++ take 32 (drop 32 p)) ++ drop 64 p ≡ p
rejoin p =
    rw
      (
        append_assoc (take 32 p) (take 32 (drop 32 p)) (drop 64 p),
        ← drop-drop 32 32 p,
        take-append-drop 32 (drop 32 p),
      )
      (take-append-drop 32 p)

-- And a payload that splits is put together from its fields.
pub split_hello-inv {ℓ} :
    {A : Type ℓ} (e : Error) (build : Bytes → Bytes → Bytes → A) (p : Bytes) (m : A)
    → split_hello e build p ≡ ok m
    → (build (take 32 p) (take 32 (drop 32 p)) (drop 64 p) ≡ m)
      × (length (take 32 p) ≡ 32)
      × (length (take 32 (drop 32 p)) ≡ 32)
      × (drop 64 p ≢ [])
split_hello-inv e build p m h =
    let (lengthy, full, built) = branches (ltb (length p) 64) (is_empty (drop 64 p)) _ e _ m h in
    let enough = ltb_false→le (length p) 64 lengthy in
    (
      built,
      omega (arith, length-take 32 p, enough),
      omega (arith, length-take 32 (drop 32 p), length-drop 32 p, enough),
      λ none_left. cc (full, ap is_empty none_left),
    )
