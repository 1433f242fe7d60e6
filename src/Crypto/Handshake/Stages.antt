-- ===== src/Crypto/Handshake/Stages.antt =====
-- What the parts of the handshake of crypto/src/handshake.cpp have computed where they succeed.
use pqc_edr.Base.{◌≡◌, refl, subst, ◌++◌}
use pqc_edr.Base.Words.{Bytes}
use pqc_edr.Crypto.Result.{Result, ok, >>=-eq-ok}
use pqc_edr.Crypto.Primitives.{
  Libs, sha256, new_kem, new_dsa, new_x25519, kem_keypair, encaps, decaps, random_bytes,
  x25519_public_key, compute_shared,
}
use pqc_edr.Crypto.Session.{derive_session_keys}
use pqc_edr.Crypto.Wire.{
  ClientHello, ServerHello, random_len, serialize_client_hello, parse_client_hello,
  serialize_server_hello, parse_server_hello,
}
use pqc_edr.Crypto.Handshake.{
  Identity, Entropy, ServerStart, ClientStart, Agreed, client_start, client_agree, server_start,
  server_agree,
}

module _ (lib : Libs) where
  -- The secrets that a side derives its keys from.
  pub record Secrets (random random' acc : Bytes) (a : Agreed) : Type 0 where
    pub classical : Bytes
    pub pq : Bytes
    pub th : Bytes
    pub hashed : sha256 lib acc ≡ ok th
    pub keyed : derive_session_keys lib classical pq random random' th ≡ ok a.keys

module _ (lib : Libs) (e : Entropy) (id : Identity) where
  pub record Began (st : ClientStart) : Type 0 where
    pub public : Bytes
    pub pair : kem_keypair lib e.kem ≡ ok st.kem_kp
    pub raw : x25519_public_key lib st.x_client ≡ ok public
    pub hello :
        serialize_client_hello (record {
          client_random = st.client_random;
          x25519_pub = public;
          mlkem_pub = st.kem_kp.public_key;
        })
        ≡ ok st.ch_frame

  pub began : (st : ClientStart) → client_start lib e id ≡ ok st → Began st
  unfolding client_start
  began st h =
      let (_, _, h1) = >>=-eq-ok (new_kem lib) _ h in
      let (_, _, h2) = >>=-eq-ok (new_dsa lib) _ h1 in
      let (x, _, h3) = >>=-eq-ok (new_x25519 lib e.x25519) _ h2 in
      let (kp, pair, h4) = >>=-eq-ok (kem_keypair lib e.kem) _ h3 in
      let (random, _, h5) = >>=-eq-ok (random_bytes lib e.random random_len) _ h4 in
      let (public, raw, h6) = >>=-eq-ok (x25519_public_key lib x) _ h5 in
      let m : ClientHello = record {
        client_random = random;
        x25519_pub = public;
        mlkem_pub = kp.public_key;
      } in
      let (frame, hello, h7) = >>=-eq-ok (serialize_client_hello m) _ h6 in
      let made : ClientStart = record {
        x_client = x;
        kem_kp = kp;
        client_random = random;
        ch_frame = frame;
      } in
      let built : ◌≡◌ {A = Result ClientStart} (ok made) (ok st) = h7 in
      let same : made ≡ st = cc in
      subst Began same (record { public = public; pair = pair; raw = raw; hello = hello })

  pub record Answered (ch_frame : Bytes) (st : ServerStart) : Type 0 where
    pub public : Bytes
    pub parsed : parse_client_hello ch_frame ≡ ok st.ch
    pub sealed : encaps lib e.kem st.ch.mlkem_pub ≡ ok st.enc
    pub raw : x25519_public_key lib st.x_server ≡ ok public
    pub hello :
        serialize_server_hello (record {
          server_random = st.server_random;
          x25519_pub = public;
          mlkem_ct = st.enc.ciphertext;
        })
        ≡ ok st.sh_frame

  pub answered :
      (x ch_frame : Bytes) (st : ServerStart)
      → server_start lib e id x ch_frame ≡ ok st
      → Answered ch_frame st
  unfolding server_start
  answered x ch_frame st h =
      let (ch, parsed, h1) = >>=-eq-ok (parse_client_hello ch_frame) _ h in
      let (enc, sealed, h2) = >>=-eq-ok (encaps lib e.kem ch.mlkem_pub) _ h1 in
      let (random, _, h3) = >>=-eq-ok (random_bytes lib e.random random_len) _ h2 in
      let (public, raw, h4) = >>=-eq-ok (x25519_public_key lib x) _ h3 in
      let m : ServerHello = record {
        server_random = random;
        x25519_pub = public;
        mlkem_ct = enc.ciphertext;
      } in
      let (frame, hello, h5) = >>=-eq-ok (serialize_server_hello m) _ h4 in
      let made : ServerStart = record {
        x_server = x;
        ch = ch;
        enc = enc;
        server_random = random;
        sh_frame = frame;
      } in
      let built : ◌≡◌ {A = Result ServerStart} (ok made) (ok st) = h5 in
      let same : made ≡ st = cc in
      subst (Answered ch_frame) same
        (record { public = public; parsed = parsed; sealed = sealed; raw = raw; hello = hello })

  pub client-Secrets :
      (st : ClientStart) (sh_frame : Bytes) (sh : ServerHello) (a : Agreed)
      → parse_server_hello sh_frame ≡ ok sh
      → client_agree lib e id st sh_frame ≡ ok a
      → (s : Secrets lib st.client_random sh.server_random (st.ch_frame ++ sh_frame) a)
        × (compute_shared lib st.x_client sh.x25519_pub ≡ ok s.classical)
        × (decaps lib sh.mlkem_ct st.kem_kp.secret_key ≡ ok s.pq)
  unfolding client_agree
  client-Secrets st sh_frame sh a parsed h =
      let h1 = rw parsed at h in
      let (classical, exchanged, h2) =
        >>=-eq-ok (compute_shared lib st.x_client sh.x25519_pub) _ h1 in
      let (pq, opened, h3) = >>=-eq-ok (decaps lib sh.mlkem_ct st.kem_kp.secret_key) _ h2 in
      let (th, hashed, h4) = >>=-eq-ok (sha256 lib (st.ch_frame ++ sh_frame)) _ h3 in
      let (keys, keyed, h5) =
        >>=-eq-ok (derive_session_keys lib classical pq st.client_random sh.server_random th) _
          h4 in
      let made : Agreed = record { acc = st.ch_frame ++ sh_frame; th = th; keys = keys } in
      let built : ◌≡◌ {A = Result Agreed} (ok made) (ok a) = h5 in
      let same : made ≡ a = cc in
      let keyed' =
        subst
          (λ (b : Agreed).
            derive_session_keys lib classical pq st.client_random sh.server_random th ≡ ok b.keys)
          same keyed in
      (
        record { classical = classical; pq = pq; th = th; hashed = hashed; keyed = keyed' },
        exchanged,
        opened,
      )

  pub server-Secrets :
      (st : ServerStart) (ch_frame : Bytes) (a : Agreed)
      → server_agree lib e id st ch_frame ≡ ok a
      → (s : Secrets lib st.ch.client_random st.server_random (ch_frame ++ st.sh_frame) a)
        × (compute_shared lib st.x_server st.ch.x25519_pub ≡ ok s.classical)
        × (s.pq ≡ st.enc.shared_secret)
  unfolding server_agree
  server-Secrets st ch_frame a h =
      let (classical, exchanged, h1) =
        >>=-eq-ok (compute_shared lib st.x_server st.ch.x25519_pub) _ h in
      let (th, hashed, h2) = >>=-eq-ok (sha256 lib (ch_frame ++ st.sh_frame)) _ h1 in
      let pq = st.enc.shared_secret in
      let (keys, keyed, h3) =
        >>=-eq-ok (derive_session_keys lib classical pq st.ch.client_random st.server_random th) _
          h2 in
      let made : Agreed = record { acc = ch_frame ++ st.sh_frame; th = th; keys = keys } in
      let built : ◌≡◌ {A = Result Agreed} (ok made) (ok a) = h3 in
      let same : made ≡ a = cc in
      let keyed' =
        subst
          (λ (b : Agreed).
            derive_session_keys lib classical pq st.ch.client_random st.server_random th
            ≡ ok b.keys)
          same keyed in
      (
        record { classical = classical; pq = pq; th = th; hashed = hashed; keyed = keyed' },
        exchanged,
        refl,
      )
