-- ===== src/Tests/Handshake.antt =====
-- The theorems on crypto/src/handshake.cpp at a run of both sides over toy primitives.
use pqc_edr.Base.{◌≡◌, ◌≢◌, refl, true, Option, some, List, [], ◌∷◌, ◌++◌, replicate}
use pqc_edr.Base.Words.{Bytes, high_byte, low_byte, join_bytes}
use pqc_edr.Base.Text.{bytes_eq}
use pqc_edr.Crypto.Result.{ok}
use pqc_edr.Crypto.Primitives.{
  Libs, kem_keypair, encaps, decaps, sign, verify, x25519_public_key, compute_shared,
}
use pqc_edr.Crypto.Session.{derive_session_keys}
use pqc_edr.Crypto.Record.{Direction, make_direction}
use pqc_edr.Crypto.Wire.{
  ServerAuth, ClientAuth, frame, open_frame, serialize_client_hello, parse_client_hello,
  serialize_server_hello, parse_server_hello, serialize_server_auth, parse_server_auth,
  serialize_client_auth, parse_client_auth,
}
use pqc_edr.Crypto.Handshake.{
  Identity, Channel, Entropy, run, make_channel, client_start, client_agree, client_auth_frame,
  client_handshake, server_new, server_start, server_agree, server_auth_frame, server_finish,
  server_handshake,
}
use pqc_edr.Crypto.Handshake.Authentic.{IsSigned, client_authenticates, server_authenticates}
use pqc_edr.Crypto.Handshake.Laws.{AgreementLaws}
use pqc_edr.Crypto.Handshake.Agreement.{channels_agree}
use pqc_edr.Crypto.Record.{seal, aes_gcm_seal}
use pqc_edr.Crypto.Record.Stream.{seal_all}
use pqc_edr.Tests.Crypto.{toy_gcm, toy_tag}

abbrev pub toy_libs : Libs
toy_libs = record {
  has_kem = true;
  kem_public_len = 1;
  kem_secret_len = 1;
  kem_ciphertext_len = 1;
  oqs_kem_keypair = λ seed. some (1 ∷ [], 2 ∷ []);
  oqs_kem_encaps = λ seed pk. some (3 ∷ [], 4 ∷ []);
  oqs_kem_decaps = λ ct sk. some (4 ∷ []);
  has_sig = true;
  sig_public_len = 1;
  sig_secret_len = 1;
  oqs_sig_sign = λ seed message sk. some (5 ∷ message);
  oqs_sig_verify = λ message signature pk. bytes_eq signature (5 ∷ message);
  evp_keygen = λ seed. some seed;
  evp_raw_public = λ key. some (replicate 32 9);
  evp_derive = λ key peer. some (6 ∷ []);
  rand_bytes = λ seed n. some (replicate n 8);
  evp_sha256 = λ input. some (7 ∷ []);
  evp_extract = λ salt ikm n. some (replicate n 1);
  evp_expand = λ prk info n. some (replicate n 2);
}

pub toy_laws : AgreementLaws toy_libs
toy_laws = record {
  kem_agrees = λ s t pk sk ct ss pair sealed. same_secret ct ss sealed;
  public_nonempty = λ s pk sk pair empty. some_public pk sk pair empty;
  ciphertext_nonempty = λ t pk ct ss sealed empty. some_ciphertext ct ss sealed empty;
  exchange_agrees = λ k j p q raw raw'. refl;
}
  where
    same_secret :
        (ct ss : Bytes)
        → ◌≡◌ {A = Option (Bytes × Bytes)} (some (3 ∷ [], 4 ∷ [])) (some (ct, ss))
        → ◌≡◌ {A = Option Bytes} (some (4 ∷ [])) (some ss)
    same_secret ct ss h = let e : 4 ∷ [] ≡ ss = cc in rw e

    some_public :
        (pk sk : Bytes)
        → ◌≡◌ {A = Option (Bytes × Bytes)} (some (1 ∷ [], 2 ∷ [])) (some (pk, sk))
        → pk ≢ []
    some_public pk sk h empty = let e : 1 ∷ [] ≡ pk = cc in cc (e, empty)

    some_ciphertext :
        (ct ss : Bytes)
        → ◌≡◌ {A = Option (Bytes × Bytes)} (some (3 ∷ [], 4 ∷ [])) (some (ct, ss))
        → ct ≢ []
    some_ciphertext ct ss h empty = let e : 3 ∷ [] ≡ ct = cc in cc (e, empty)

abbrev pub drawn : Entropy
drawn = record { x25519 = 1 ∷ []; kem = 2 ∷ []; random = 3 ∷ []; signing = 4 ∷ [] }

abbrev pub agent : Identity
agent = record { sig_public = 1 ∷ []; sig_secret = 2 ∷ []; peer_sig_public = 3 ∷ [] }

abbrev pub analyzer : Identity
analyzer = record { sig_public = 3 ∷ []; sig_secret = 4 ∷ []; peer_sig_public = 1 ∷ [] }

abbrev pub ch_frame : Bytes
ch_frame = 1 ∷ 1 ∷ 0 ∷ 65 ∷ (replicate 32 8 ++ (replicate 32 9 ++ 1 ∷ []))

abbrev pub sh_frame : Bytes
sh_frame = 2 ∷ 1 ∷ 0 ∷ 65 ∷ (replicate 32 8 ++ (replicate 32 9 ++ 3 ∷ []))

abbrev pub sa_frame : Bytes
sa_frame = 3 ∷ 1 ∷ 0 ∷ 2 ∷ 5 ∷ 7 ∷ []

abbrev pub ca_frame : Bytes
ca_frame = 4 ∷ 1 ∷ 0 ∷ 2 ∷ 5 ∷ 7 ∷ []

abbrev pub way : Direction
way = record { key = replicate 32 2; iv_base = replicate 12 2; seq = 0 }

abbrev pub both : Channel
both = record { sender = way; receiver = way }

pub client_completes :
    run (client_handshake toy_libs drawn agent) (sh_frame ∷ sa_frame ∷ [])
    ≡ (ok both, ch_frame ∷ ca_frame ∷ [])
unfolding run client_handshake client_start client_agree client_auth_frame make_channel kem_keypair
    decaps sign verify x25519_public_key compute_shared derive_session_keys make_direction frame
    open_frame serialize_client_hello parse_server_hello parse_server_auth serialize_client_auth
    high_byte low_byte join_bytes bytes_eq
client_completes = refl

pub server_completes :
    run (server_handshake toy_libs drawn analyzer) (ch_frame ∷ ca_frame ∷ [])
    ≡ (ok both, sh_frame ∷ sa_frame ∷ [])
unfolding run server_handshake server_new server_start server_agree server_auth_frame server_finish
    make_channel encaps sign verify x25519_public_key compute_shared derive_session_keys
    make_direction frame open_frame parse_client_hello serialize_server_hello serialize_server_auth
    parse_client_auth high_byte low_byte join_bytes bytes_eq
server_completes = refl

channels_agree_example : (both.sender ≡ both.receiver) × (both.receiver ≡ both.sender)
channels_agree_example =
    channels_agree toy_libs toy_laws drawn drawn agent analyzer ch_frame sh_frame sa_frame ca_frame
      both both client_completes server_completes

client_authenticates_example :
    (ch : Bytes) × (ca : Bytes) × (sh : Bytes) × (sa : Bytes) × (rest : List Bytes) × (ch_frame
        ∷ ca_frame ∷ []
      ≡ ch ∷ ca ∷ [])
    × (sh_frame ∷ sa_frame ∷ [] ≡ sh ∷ sa ∷ rest)
    × (m : ServerAuth) × (parse_server_auth sa ≡ ok m)
    × IsSigned toy_libs agent (ch ++ sh) m.signature
client_authenticates_example =
    client_authenticates toy_libs drawn agent (sh_frame ∷ sa_frame ∷ []) (ch_frame ∷ ca_frame ∷ [])
      both client_completes

server_authenticates_example :
    (sh : Bytes) × (sa : Bytes) × (ch : Bytes) × (ca : Bytes) × (rest : List Bytes) × (sh_frame
        ∷ sa_frame ∷ []
      ≡ sh ∷ sa ∷ [])
    × (ch_frame ∷ ca_frame ∷ [] ≡ ch ∷ ca ∷ rest)
    × (m : ClientAuth) × (parse_client_auth ca ≡ ok m)
    × IsSigned toy_libs analyzer ((ch ++ sh) ++ sa) m.signature
server_authenticates_example =
    server_authenticates toy_libs drawn analyzer (ch_frame ∷ ca_frame ∷ [])
      (sh_frame ∷ sa_frame ∷ []) both server_completes

abbrev pub hello_record : Bytes
hello_record = 0 ∷ 18 ∷ 104 ∷ 105 ∷ toy_tag

pub hello_sealed :
    seal_all toy_gcm both.sender ((104 ∷ 105 ∷ []) ∷ [])
    ≡ ok (hello_record ∷ [], record way { seq = 1 })
unfolding seal aes_gcm_seal high_byte low_byte
hello_sealed = refl
