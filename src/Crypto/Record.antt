-- ===== src/Crypto/Record.antt =====
-- The AES-256-GCM record layer: crypto/src/record.cpp and crypto/include/pqsec/record.h.
-- A record is [length, big-endian][ciphertext][tag]. OpenSSL's AES-256-GCM is the parameter `Gcm`.
pub mod Nonce
pub mod Laws
pub mod Stream
use pqc_edr.Base.{
  ℕ, zero, suc, ◌+◌, ◌-◌, ◌*◌, ◌/◌, ◌%◌, ◌^◌, Bool, true, false, not, ◌||◌, Option, none, some,
  List, [], ◌∷◌, ◌++◌, length, get_or, take, drop, bit_xor, ltb, ◌==◌, if◌then◌else◌,
}
use pqc_edr.Base.Words.{Bytes, high_byte, low_byte, join_bytes}
use pqc_edr.Crypto.Result.{
  wrong_key_length, sequence_exhausted, plaintext_too_long, encrypt_failed, record_too_short,
  record_length_mismatch, payload_too_short, tag_mismatch,
}
use pqc_edr.Crypto.Result.{record_layer, Result, ok, err, ◌>>=◌, ◌>>◌, throw_if}

abbrev pub gcm_tag_len : ℕ
gcm_tag_len = 16

abbrev pub iv_len : ℕ
iv_len = 12

abbrev pub aes_key_len : ℕ
aes_key_len = 32

-- `UINT64_MAX`
abbrev pub max_seq : ℕ
max_seq = 2 ^ 64 - 1

-- OpenSSL's AES-256-GCM: the ciphertext with its tag, and the plaintext if the tag fits. `none` is
-- a call that fails. The arguments are the key, the nonce and the authenticated header.
pub record Gcm : Type 0 where
  pub encrypt : Bytes → Bytes → Bytes → Bytes → Option (Bytes × Bytes)
  pub decrypt : Bytes → Bytes → Bytes → Bytes → Bytes → Option Bytes

-- `b[i] ^= m`
unfoldable pub xor_at : ℕ → ℕ → Bytes → Bytes
xor_at i m [] = []
xor_at zero m (b ∷ bs) = bit_xor b m ∷ bs
xor_at (suc i) m (b ∷ bs) = b ∷ xor_at i m bs

-- `static_cast<uint8_t>(seq >> (8 * (7 - i)))`
abbrev pub seq_byte : ℕ → ℕ → ℕ
seq_byte seq i = seq / 2 ^ (8 * (7 - i)) % 2 ^ 8

-- The loop of `make_nonce`, with the rounds that are left and the index `i`.
unfoldable pub mix : ℕ → ℕ → ℕ → Bytes → Bytes
mix zero i seq nonce = nonce
mix (suc left) i seq nonce = mix left (i + 1) seq (xor_at (iv_len - 8 + i) (seq_byte seq i) nonce)

unfoldable pub make_nonce : Bytes → ℕ → Bytes
make_nonce iv_base seq = mix 8 0 seq iv_base

abbrev put_u16 : Bytes → ℕ → Bytes
put_u16 b v = (b ++ high_byte v ∷ []) ++ low_byte v ∷ []

-- `RecordSender` and `RecordReceiver` hold the same members.
pub record Direction : Type 0 where
  pub key : Bytes
  pub iv_base : Bytes
  pub seq : ℕ

-- Both constructors.
unfoldable pub make_direction : Bytes → Bytes → Result Direction
make_direction key iv_base = do
  throw_if (not (length key == aes_key_len) || not (length iv_base == iv_len))
      (record_layer wrong_key_length)
  ok (record { key = key; iv_base = iv_base; seq = 0 })

module _ (g : Gcm) where
  unfoldable pub aes_gcm_seal : Bytes → Bytes → Bytes → Bytes → Result Bytes
  aes_gcm_seal key nonce aad pt = elim (g.encrypt key nonce aad pt) [
    | none ↦ err (record_layer encrypt_failed)
    | some (ct, tag) ↦ ok (ct ++ tag)
  ]

  unfoldable pub aes_gcm_open : Bytes → Bytes → Bytes → Bytes → Bytes → Result Bytes
  aes_gcm_open key nonce aad ct tag = elim (g.decrypt key nonce aad ct tag) [
    | none ↦ err (record_layer tag_mismatch)
    | some pt ↦ ok pt
  ]

  -- `RecordSender::seal`: the record and the sender after it. A throw leaves the sender as it was.
  unfoldable pub seal : Direction → Bytes → Result (Bytes × Direction)
  unfolding aes_gcm_seal
  seal s plaintext = do
    throw_if (s.seq == max_seq) (record_layer sequence_exhausted)
    throw_if (ltb (0xffff - gcm_tag_len) (length plaintext)) (record_layer plaintext_too_long)
    let header = put_u16 [] (length plaintext + gcm_tag_len)
    ct_tag ← aes_gcm_seal s.key (make_nonce s.iv_base s.seq) header plaintext
    ok (header ++ ct_tag, record s { seq = s.seq + 1 })

  -- `RecordReceiver::open`: the plaintext and the receiver after it.
  unfoldable pub open_record : Direction → Bytes → Result (Bytes × Direction)
  unfolding aes_gcm_open
  open_record r rec = do
    throw_if (r.seq == max_seq) (record_layer sequence_exhausted)
    throw_if (ltb (length rec) (2 + gcm_tag_len)) (record_layer record_too_short)
    let payload_len = join_bytes (get_or rec 0 0) (get_or rec 1 0)
    throw_if (not (length rec == 2 + payload_len)) (record_layer record_length_mismatch)
    throw_if (ltb payload_len gcm_tag_len) (record_layer payload_too_short)
    let header = get_or rec 0 0 ∷ get_or rec 1 0 ∷ []
    let ct_len = payload_len - gcm_tag_len
    let ct = take ct_len (drop 2 rec)
    let tag = take gcm_tag_len (drop (2 + ct_len) rec)
    pt ← aes_gcm_open r.key (make_nonce r.iv_base r.seq) header ct tag
    ok (pt, record r { seq = r.seq + 1 })
