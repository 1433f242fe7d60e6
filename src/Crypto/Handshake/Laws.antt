-- ===== src/Crypto/Handshake/Laws.antt =====
-- What crypto/src/handshake.cpp relies on of ML-KEM and X25519, and what the wrappers' success says.
use pqc_edr.Base.{◌≡◌, ◌≢◌, Bool, true, false, not, Option, some, none, [], length, ◌==◌}
use pqc_edr.Base.Words.{Bytes}
use pqc_edr.Crypto.Result.{
  Error, Result, ok, throw_if, ◌>>◌, >>=-eq-ok, kem_failed, kem_length, exchange_failed,
  exchange_length,
}
use pqc_edr.Crypto.Primitives.{
  Libs, KeyPair, EncapsResult, or_throw, kem_keypair, encaps, decaps, compute_shared,
  x25519_public_key, key_len,
}

-- Both ends of a key encapsulation, and both ends of an exchange, get the same secret; a public key and a
-- ciphertext of ML-KEM are not empty.
pub record AgreementLaws (lib : Libs) : Type 0 where
  pub kem_agrees :
      (s t pk sk ct ss : Bytes)
      → lib.oqs_kem_keypair s ≡ some (pk, sk)
      → lib.oqs_kem_encaps t pk ≡ some (ct, ss)
      → lib.oqs_kem_decaps ct sk ≡ some ss
  pub public_nonempty : (s pk sk : Bytes) → lib.oqs_kem_keypair s ≡ some (pk, sk) → pk ≢ []
  pub ciphertext_nonempty : (t pk ct ss : Bytes) → lib.oqs_kem_encaps t pk ≡ some (ct, ss) → ct ≢ []
  pub exchange_agrees :
      (k j p q : Bytes)
      → lib.evp_raw_public k ≡ some p
      → lib.evp_raw_public j ≡ some q
      → lib.evp_derive k q ≡ lib.evp_derive j p

or_throw-inv {ℓ} :
    {A : Type ℓ} (o : Option A) (e : Error) (a : A) → or_throw o e ≡ ok a → o ≡ some a
or_throw-inv none e a h = cc
or_throw-inv (some b) e a h = cc

checked {ℓ} :
    {V : Type ℓ} (b : Bool) (e : Error) (next : Result V) (v : V)
    → (throw_if b e >> next) ≡ ok v
    → next ≡ ok v
checked true e next v h = cc
checked false e next v h = h

module _ (lib : Libs) where
  pub kem_keypair-inv :
      (s : Bytes) (kp : KeyPair)
      → kem_keypair lib s ≡ ok kp
      → lib.oqs_kem_keypair s ≡ some (kp.public_key, kp.secret_key)
  unfolding kem_keypair
  kem_keypair-inv s kp h =
      let ((pk, sk), called, built) = >>=-eq-ok (or_throw (lib.oqs_kem_keypair s) kem_failed) _ h in
      let e : ◌≡◌ {A = Result KeyPair} (ok (record { public_key = pk; secret_key = sk })) (ok kp) =
        built in
      let same : record { public_key = pk; secret_key = sk } ≡ kp = cc in
      rw (← same) (or_throw-inv _ kem_failed (pk, sk) called)

  pub encaps-inv :
      (s pk : Bytes) (r : EncapsResult)
      → encaps lib s pk ≡ ok r
      → lib.oqs_kem_encaps s pk ≡ some (r.ciphertext, r.shared_secret)
  unfolding encaps
  encaps-inv s pk r h =
      let h' = checked (not (length pk == lib.kem_public_len)) kem_length _ r h in
      let ((ct, ss), called, built) =
        >>=-eq-ok (or_throw (lib.oqs_kem_encaps s pk) kem_failed) _ h' in
      let e : ◌≡◌ {A = Result EncapsResult} (ok (record { ciphertext = ct; shared_secret = ss }))
          (ok r) =
        built in
      let same : record { ciphertext = ct; shared_secret = ss } ≡ r = cc in
      rw (← same) (or_throw-inv _ kem_failed (ct, ss) called)

  pub decaps-inv :
      (ct sk ss : Bytes) → decaps lib ct sk ≡ ok ss → lib.oqs_kem_decaps ct sk ≡ some ss
  unfolding decaps
  decaps-inv ct sk ss h = or_throw-inv _ kem_failed ss (
      checked (not (length sk == lib.kem_secret_len)) kem_length _ ss
        (checked (not (length ct == lib.kem_ciphertext_len)) kem_length _ ss h))

  pub compute_shared-inv :
      (k p ss : Bytes) → compute_shared lib k p ≡ ok ss → lib.evp_derive k p ≡ some ss
  unfolding compute_shared
  compute_shared-inv k p ss h =
      or_throw-inv _ exchange_failed ss (checked (not (length p == key_len)) exchange_length _ ss h)

  pub x25519_public_key-inv :
      (k p : Bytes) → x25519_public_key lib k ≡ ok p → lib.evp_raw_public k ≡ some p
  unfolding x25519_public_key
  x25519_public_key-inv k p h =
      let (raw, called, h1) = >>=-eq-ok (or_throw (lib.evp_raw_public k) exchange_failed) _ h in
      let e : ◌≡◌ {A = Result Bytes} (ok raw) (ok p) =
        checked (not (length raw == key_len)) exchange_failed (ok raw) p h1 in
      let same : raw ≡ p = cc in rw (← same) (or_throw-inv _ exchange_failed raw called)
