-- ===== src/Crypto/Result.antt =====
-- The exceptions of crypto/, one constructor for each kind of `throw`, and the results of calls
-- that may throw one. Source: crypto/include/pqsec/{wire,record,handshake,socket}.h and the
-- `throw`s of crypto/src/*.cpp.
use pqc_edr.Base.{◌≡◌, refl, Bool, true, false, if◌then◌else◌}

-- `WireError` of wire.cpp.
pub data WireError : Type 0 where
  truncated too_long wrong_type wrong_version wrong_length short_header wrong_fixed_field :
      WireError
  missing_kem_key missing_ciphertext missing_signature : WireError

-- `RecordError` of record.cpp.
pub data RecordError : Type 0 where
  wrong_key_length sequence_exhausted plaintext_too_long encrypt_failed : RecordError
  record_too_short record_length_mismatch payload_too_short tag_mismatch : RecordError

-- `SocketError` of socket.cpp.
pub data SocketError : Type 0 where
  send_failed recv_failed closed_mid_message closed_in_handshake closed_in_payload : SocketError
  bad_address unresolved socket_failed bind_failed listen_failed accept_failed connect_failed
        no_name :
      SocketError

-- `HandshakeError` of handshake.cpp, and the plain `std::runtime_error`s below it.
pub data Error : Type 0 where
  wire : WireError → Error
  record_layer : RecordError → Error
  socket : SocketError → Error
  no_randomness server_not_authentic client_not_authentic : Error
  kem_failed kem_length signature_failed signature_length exchange_failed exchange_length : Error
  kdf_failed file_failed identity_length : Error

-- What a call gives: a thrown exception, or its value.
pub data Result {ℓ} (V : Type ℓ) : Type ℓ where
  err : Error → Result V
  ok : V → Result V

-- `if (bad) throw e;`
abbrev pub throw_if : Bool → Error → Result (Unit {0})
throw_if true e = err e
throw_if false e = ok tt

infixl 5 ◌>>◌ ◌>>=◌
-- The next call, where this one has not thrown.
abbrev pub ◌>>=◌ {ℓ μ} : {V : Type ℓ} {W : Type μ} → Result V → (V → Result W) → Result W
err problem >>= next = err problem
ok value >>= next = next value

abbrev pub ◌>>◌ {ℓ} : {W : Type ℓ} → Result (Unit {0}) → Result W → Result W
check >> next = check >>= λ _. next

pub throw_if-ok {ℓ} :
    {V : Type ℓ} (bad : Bool) (e : Error) (v : V)
    → (throw_if bad e >> ok v) ≡ (if bad then err e else ok v)
throw_if-ok true e v = refl
throw_if-ok false e v = refl

-- A chain that gives a value has not thrown on the way.
pub >>=-eq-ok {ℓ μ} :
    {V : Type ℓ} {W : Type μ} (call : Result V) (next : V → Result W) {w : W}
    → (call >>= next) ≡ ok w
    → (v : V) × (call ≡ ok v) × (next v ≡ ok w)
>>=-eq-ok (err problem) next h = cc
>>=-eq-ok (ok value) next h = (value, refl, h)
