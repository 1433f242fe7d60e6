-- ===== src/Crypto/Wire.antt =====
-- The handshake's wire format: crypto/src/wire.cpp and crypto/include/pqsec/wire.h.
-- A frame is [type][version][payload length, big-endian][payload]. `Writer` appends to a byte list,
-- and `Reader` is the buffer with a position that each read moves.
pub mod Writer
pub mod ReaderOps
pub mod Frames
pub mod Hello
pub mod RoundTrip
pub mod Strict
use pqc_edr.Base.{
  ℕ, ◌+◌, ◌-◌, ◌≡◌, Bool, true, false, not, ◌||◌, List, [], ◌∷◌, ◌++◌, length, get_or, take, drop,
  is_empty, ltb, ◌==◌, if◌then◌else◌,
}
use pqc_edr.Base.Words.{Bytes, high_byte, low_byte, join_bytes}
use pqc_edr.Crypto.Result.{
  WireError, truncated, too_long, wrong_type, wrong_version, wrong_length, short_header,
  wrong_fixed_field, missing_kem_key, missing_ciphertext, missing_signature,
}
use Writer
use ReaderOps
use ReaderOps.{Reader}
use pqc_edr.Crypto.Result.{wire, Result, ok, err, ◌>>=◌, ◌>>◌, throw_if}

pub data MsgType : Type 0 where
  client_hello server_hello server_auth client_auth : MsgType

-- `static_cast<uint8_t>(type)`
abbrev pub code : MsgType → ℕ
code client_hello = 1
code server_hello = 2
code server_auth = 3
code client_auth = 4

abbrev pub version : ℕ
version = 1

abbrev pub random_len : ℕ
random_len = 32

abbrev pub x25519_len : ℕ
x25519_len = 32

abbrev pub header_len : ℕ
header_len = 4

pub record ClientHello : Type 0 where
  pub client_random : Bytes
  pub x25519_pub : Bytes
  pub mlkem_pub : Bytes

pub record ServerHello : Type 0 where
  pub server_random : Bytes
  pub x25519_pub : Bytes
  pub mlkem_ct : Bytes

pub record ServerAuth : Type 0 where
  pub signature : Bytes

pub record ClientAuth : Type 0 where
  pub signature : Bytes

unfoldable pub frame : MsgType → Bytes → Result Bytes
frame type payload = do
  throw_if (ltb 0xffff (length payload)) (wire too_long)
  ok (
      Writer.bytes payload
        (Writer.u16 (length payload) (Writer.u8 version (Writer.u8 (code type) []))))

unfoldable pub open_frame : Bytes → MsgType → Result Reader
open_frame f expected = do
  (type, r) ← ReaderOps.u8 (record { buf = f; pos = 0 })
  (ver, r) ← ReaderOps.u8 r
  (len, r) ← ReaderOps.u16 r
  throw_if (not (type == code expected)) (wire wrong_type)
  throw_if (not (ver == version)) (wire wrong_version)
  throw_if (not (ReaderOps.remaining r == len)) (wire wrong_length)
  ok r

-- The first byte; the source casts it to `MsgType` unchecked, so it stays a number.
unfoldable pub peek_type : Bytes → Result ℕ
peek_type f = do throw_if (ltb (length f) header_len) (wire short_header); ok (get_or f 0 0)

unfoldable pub serialize_client_hello : ClientHello → Result Bytes
serialize_client_hello m = do
  throw_if (not (length m.client_random == random_len) || not (length m.x25519_pub == x25519_len))
      (wire wrong_fixed_field)
  frame client_hello
      (Writer.bytes m.mlkem_pub (Writer.bytes m.x25519_pub (Writer.bytes m.client_random [])))

unfoldable pub parse_client_hello : Bytes → Result ClientHello
parse_client_hello f = do
  r ← open_frame f client_hello
  (random, r) ← ReaderOps.bytes r random_len
  (x25519, r) ← ReaderOps.bytes r x25519_len
  (mlkem, r) ← ReaderOps.bytes r (ReaderOps.remaining r)
  throw_if (is_empty mlkem) (wire missing_kem_key)
  ok (record { client_random = random; x25519_pub = x25519; mlkem_pub = mlkem })

unfoldable pub serialize_server_hello : ServerHello → Result Bytes
serialize_server_hello m = do
  throw_if (not (length m.server_random == random_len) || not (length m.x25519_pub == x25519_len))
      (wire wrong_fixed_field)
  frame server_hello
      (Writer.bytes m.mlkem_ct (Writer.bytes m.x25519_pub (Writer.bytes m.server_random [])))

unfoldable pub parse_server_hello : Bytes → Result ServerHello
parse_server_hello f = do
  r ← open_frame f server_hello
  (random, r) ← ReaderOps.bytes r random_len
  (x25519, r) ← ReaderOps.bytes r x25519_len
  (ct, r) ← ReaderOps.bytes r (ReaderOps.remaining r)
  throw_if (is_empty ct) (wire missing_ciphertext)
  ok (record { server_random = random; x25519_pub = x25519; mlkem_ct = ct })

unfoldable pub serialize_server_auth : ServerAuth → Result Bytes
serialize_server_auth m = frame server_auth m.signature

unfoldable pub serialize_client_auth : ClientAuth → Result Bytes
serialize_client_auth m = frame client_auth m.signature

unfoldable pub parse_server_auth : Bytes → Result ServerAuth
parse_server_auth f = do
  r ← open_frame f server_auth
  (signature, r) ← ReaderOps.bytes r (ReaderOps.remaining r)
  throw_if (is_empty signature) (wire missing_signature)
  ok (record { signature = signature })

unfoldable pub parse_client_auth : Bytes → Result ClientAuth
parse_client_auth f = do
  r ← open_frame f client_auth
  (signature, r) ← ReaderOps.bytes r (ReaderOps.remaining r)
  throw_if (is_empty signature) (wire missing_signature)
  ok (record { signature = signature })
