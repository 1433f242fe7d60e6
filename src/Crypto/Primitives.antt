-- ===== src/Crypto/Primitives.antt =====
-- The wrappers around OpenSSL and liboqs: crypto/src/{kdf,x25519,pqc_kem,pqc_sig}.cpp.
-- The libraries are the parameter `Libs`. A call of theirs that fails is `none`, and a call that draws
-- randomness takes it as a byte string.
use pqc_edr.Base.{ℕ, Bool, false, not, Option, some, none, length, ◌==◌, if◌then◌else◌}
use pqc_edr.Base.Words.{Bytes}
use pqc_edr.Crypto.Result.{
  Error, Result, ok, err, ◌>>=◌, ◌>>◌, throw_if, no_randomness, kem_failed, kem_length,
  signature_failed, signature_length, exchange_failed, exchange_length, kdf_failed,
}

pub record Libs : Type 0 where
  -- `OQS_KEM_new(OQS_KEM_alg_ml_kem_768)` and what the object says of its lengths
  pub has_kem : Bool
  pub kem_public_len : ℕ
  pub kem_secret_len : ℕ
  pub kem_ciphertext_len : ℕ
  pub oqs_kem_keypair : Bytes → Option (Bytes × Bytes)
  pub oqs_kem_encaps : Bytes → Bytes → Option (Bytes × Bytes)
  pub oqs_kem_decaps : Bytes → Bytes → Option Bytes
  -- `OQS_SIG_new(OQS_SIG_alg_ml_dsa_65)`
  pub has_sig : Bool
  pub sig_public_len : ℕ
  pub sig_secret_len : ℕ
  pub oqs_sig_sign : Bytes → Bytes → Bytes → Option Bytes
  pub oqs_sig_verify : Bytes → Bytes → Bytes → Bool
  -- X25519 of EVP_PKEY: a private key, its raw public key, and the derivation of a secret
  pub evp_keygen : Bytes → Option Bytes
  pub evp_raw_public : Bytes → Option Bytes
  pub evp_derive : Bytes → Bytes → Option Bytes
  -- `RAND_bytes`, SHA-256, and the two modes of HKDF-SHA256
  pub rand_bytes : Bytes → ℕ → Option Bytes
  pub evp_sha256 : Bytes → Option Bytes
  pub evp_extract : Bytes → Bytes → ℕ → Option Bytes
  pub evp_expand : Bytes → Bytes → ℕ → Option Bytes

-- A library call whose failure is thrown.
abbrev pub or_throw {ℓ} : {A : Type ℓ} → Option A → Error → Result A
or_throw none e = err e
or_throw (some a) e = ok a

abbrev pub key_len : ℕ
key_len = 32

pub record KeyPair : Type 0 where
  pub public_key : Bytes
  pub secret_key : Bytes

pub record EncapsResult : Type 0 where
  pub ciphertext : Bytes
  pub shared_secret : Bytes

module _ (lib : Libs) where
  abbrev pub sha256 : Bytes → Result Bytes
  sha256 input = or_throw (lib.evp_sha256 input) kdf_failed

  abbrev pub hkdf_extract : Bytes → Bytes → Result Bytes
  hkdf_extract salt ikm = or_throw (lib.evp_extract salt ikm 32) kdf_failed

  abbrev pub hkdf_expand : Bytes → Bytes → ℕ → Result Bytes
  hkdf_expand prk info out_len = or_throw (lib.evp_expand prk info out_len) kdf_failed

  -- `MlKem::MlKem` and `MlDsa::MlDsa`
  abbrev pub new_kem : Result (Unit {0})
  new_kem = throw_if (not lib.has_kem) kem_failed

  abbrev pub new_dsa : Result (Unit {0})
  new_dsa = throw_if (not lib.has_sig) signature_failed

  unfoldable pub kem_keypair : Bytes → Result KeyPair
  kem_keypair entropy = do
    (pk, sk) ← or_throw (lib.oqs_kem_keypair entropy) kem_failed
    ok (record { public_key = pk; secret_key = sk })

  unfoldable pub encaps : Bytes → Bytes → Result EncapsResult
  encaps entropy peer_public_key = do
    throw_if (not (length peer_public_key == lib.kem_public_len)) kem_length
    (ct, ss) ← or_throw (lib.oqs_kem_encaps entropy peer_public_key) kem_failed
    ok (record { ciphertext = ct; shared_secret = ss })

  unfoldable pub decaps : Bytes → Bytes → Result Bytes
  decaps ciphertext secret_key = do
    throw_if (not (length ciphertext == lib.kem_ciphertext_len)) kem_length
    throw_if (not (length secret_key == lib.kem_secret_len)) kem_length
    or_throw (lib.oqs_kem_decaps ciphertext secret_key) kem_failed

  unfoldable pub sign : Bytes → Bytes → Bytes → Result Bytes
  sign entropy message secret_key = do
    throw_if (not (length secret_key == lib.sig_secret_len)) signature_length
    or_throw (lib.oqs_sig_sign entropy message secret_key) signature_failed

  unfoldable pub verify : Bytes → Bytes → Bytes → Bool
  verify message signature public_key =
      if not (length public_key == lib.sig_public_len)
      then false
      else lib.oqs_sig_verify message signature public_key

  -- `X25519::X25519`
  abbrev pub new_x25519 : Bytes → Result Bytes
  new_x25519 entropy = or_throw (lib.evp_keygen entropy) exchange_failed

  unfoldable pub x25519_public_key : Bytes → Result Bytes
  x25519_public_key key = do
    raw ← or_throw (lib.evp_raw_public key) exchange_failed
    throw_if (not (length raw == key_len)) exchange_failed
    ok raw

  unfoldable pub compute_shared : Bytes → Bytes → Result Bytes
  compute_shared key peer_public = do
    throw_if (not (length peer_public == key_len)) exchange_length
    or_throw (lib.evp_derive key peer_public) exchange_failed

  abbrev pub random_bytes : Bytes → ℕ → Result Bytes
  random_bytes entropy n = or_throw (lib.rand_bytes entropy n) no_randomness
