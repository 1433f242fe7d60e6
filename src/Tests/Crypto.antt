-- ===== src/Tests/Crypto.antt =====
-- The theorems on crypto/src/{wire,record}.cpp at concrete inputs, with a toy cipher that leaves the
-- plaintext as it is and has a constant tag.
use pqc_edr.Base.{
  ℕ, ◌≡◌, ◌≢◌, refl, Bool-cases, inl, inr, Option, some, none, List, [], ◌∷◌, ◌++◌, length,
  replicate, if◌then◌else◌, arith,
}
use pqc_edr.Base.Words.{Bytes, AreBytes, high_byte, low_byte, join_bytes}
use pqc_edr.Base.Text.{bytes_eq, bytes_eq_iff, bytes_eq_refl}
use pqc_edr.Crypto.Result.{ok}
use pqc_edr.Crypto.Wire.{
  ClientHello, ServerHello, client_hello, parse_client_hello, parse_server_hello,
  serialize_client_hello, serialize_server_hello, open_frame, frame, serialize_server_auth,
  serialize_client_auth,
}
use pqc_edr.Crypto.Wire.Strict.{serialize-parse_hello}
use pqc_edr.Crypto.Record.{Gcm, Direction, seal, open_record, aes_gcm_seal, aes_gcm_open}
use pqc_edr.Crypto.Record.Laws.{GcmLaws, seal-open}
use pqc_edr.Crypto.Record.Stream.{seal_all}

abbrev client_m : ClientHello
client_m = record {
  client_random = replicate 32 1;
  x25519_pub = replicate 32 2;
  mlkem_pub = 7 ∷ 8 ∷ [];
}

abbrev server_m : ServerHello
server_m = record { server_random = replicate 32 3; x25519_pub = replicate 32 4; mlkem_ct = 9 ∷ [] }

abbrev client_frame : Bytes
client_frame = 1 ∷ 1 ∷ 0 ∷ 66 ∷ (replicate 32 1 ++ (replicate 32 2 ++ 7 ∷ 8 ∷ []))

abbrev server_frame : Bytes
server_frame = 2 ∷ 1 ∷ 0 ∷ 65 ∷ (replicate 32 3 ++ (replicate 32 4 ++ 9 ∷ []))

client_written : serialize_client_hello client_m ≡ ok client_frame
unfolding serialize_client_hello frame high_byte low_byte
client_written = refl

server_written : serialize_server_hello server_m ≡ ok server_frame
unfolding serialize_server_hello frame high_byte low_byte
server_written = refl

client_parsed : parse_client_hello client_frame ≡ ok client_m
unfolding parse_client_hello open_frame join_bytes
client_parsed = refl

server_parsed : parse_server_hello server_frame ≡ ok server_m
unfolding parse_server_hello open_frame join_bytes
server_parsed = refl

client_frame-AreBytes : AreBytes client_frame
client_frame-AreBytes = omega arith

server_frame-AreBytes : AreBytes server_frame
server_frame-AreBytes = omega arith

server_auth_written :
    serialize_server_auth (record { signature = 5 ∷ [] }) ≡ ok (3 ∷ 1 ∷ 0 ∷ 1 ∷ 5 ∷ [])
unfolding serialize_server_auth frame high_byte low_byte
server_auth_written = refl

client_auth_written :
    serialize_client_auth (record { signature = 5 ∷ [] }) ≡ ok (4 ∷ 1 ∷ 0 ∷ 1 ∷ 5 ∷ [])
unfolding serialize_client_auth frame high_byte low_byte
client_auth_written = refl

serialize-parse_hello_example :
    (serialize_client_hello client_m ≡ ok client_frame)
    × (client_m.mlkem_pub ≢ [])
    × (serialize_server_hello server_m ≡ ok server_frame)
    × (server_m.mlkem_ct ≢ [])
serialize-parse_hello_example =
    serialize-parse_hello client_frame server_frame client_m server_m client_frame-AreBytes
      server_frame-AreBytes client_parsed server_parsed

client_opened : open_frame client_frame client_hello ≡ ok (record { buf = client_frame; pos = 4 })
unfolding open_frame join_bytes
client_opened = refl

-- The toy cipher.
abbrev pub toy_tag : Bytes
toy_tag = replicate 16 0

abbrev pub toy_gcm : Gcm
toy_gcm = record {
  encrypt = λ key nonce aad pt. some (pt, toy_tag);
  decrypt = λ key nonce aad ct tag. if bytes_eq tag toy_tag then some ct else none;
}

abbrev Written : Bytes → Bytes → Bytes → Type 0
Written pt ct tag = ◌≡◌ {A = Option (Bytes × Bytes)} (some (pt, toy_tag)) (some (ct, tag))

pub toy_laws : GcmLaws toy_gcm
toy_laws = record {
  lengths = λ _ _ _ pt ct tag e. same_lengths pt ct tag e;
  decrypt-encrypt = λ _ _ _ pt ct tag e. opens pt ct tag e;
  encrypt-decrypt = λ _ _ _ pt ct tag e. seals pt ct tag e;
}
  where
    same_lengths :
        (pt ct tag : Bytes) → Written pt ct tag → (length ct ≡ length pt) × (length tag ≡ 16)
    same_lengths pt ct tag e =
        let c : pt ≡ ct = cc in let t : toy_tag ≡ tag = cc in rw (← c, ← t) (refl, refl)

    opens :
        (pt ct tag : Bytes)
        → Written pt ct tag
        → (if bytes_eq tag toy_tag then some ct else none) ≡ some pt
    opens pt ct tag e =
        let c : pt ≡ ct = cc in let t : toy_tag ≡ tag = cc in rw (← c, ← t, bytes_eq_refl toy_tag)

    seals :
        (pt ct tag : Bytes)
        → (if bytes_eq tag toy_tag then some ct else none) ≡ some pt
        → Written pt ct tag
    seals pt ct tag e = elim (Bool-cases (bytes_eq tag toy_tag)) [
      | inl same ↦
          let t : tag ≡ toy_tag = (bytes_eq_iff tag toy_tag).0 same in
          let c : ◌≡◌ {A = Option Bytes} (some ct) (some pt) = rw same at e in
          let d : ct ≡ pt = cc in rw (t, d)
      | inr other ↦ cc (rw other at e)
    ]

abbrev dir : ℕ → Direction
dir seq = record { key = replicate 32 7; iv_base = replicate 12 1; seq = seq }

abbrev one_record : Bytes
one_record = 0 ∷ 19 ∷ 1 ∷ 2 ∷ 3 ∷ toy_tag

one_sealed : seal toy_gcm (dir 5) (1 ∷ 2 ∷ 3 ∷ []) ≡ ok (one_record, dir 6)
unfolding seal aes_gcm_seal high_byte low_byte
one_sealed = refl

one_opened : open_record toy_gcm (dir 5) one_record ≡ ok (1 ∷ 2 ∷ 3 ∷ [], dir 6)
unfolding open_record aes_gcm_open bytes_eq join_bytes
one_opened = refl

seal-open_example : seal toy_gcm (dir 5) (1 ∷ 2 ∷ 3 ∷ []) ≡ ok (one_record, dir 6)
seal-open_example =
    seal-open toy_gcm toy_laws (dir 5) (1 ∷ 2 ∷ 3 ∷ []) one_record (dir 6) (omega arith) one_opened

abbrev two_plain : List Bytes
two_plain = (1 ∷ 2 ∷ 3 ∷ []) ∷ (1 ∷ 2 ∷ 3 ∷ []) ∷ []

two_sealed : seal_all toy_gcm (dir 5) two_plain ≡ ok (one_record ∷ one_record ∷ [], dir 7)
unfolding seal aes_gcm_seal high_byte low_byte
two_sealed = refl
