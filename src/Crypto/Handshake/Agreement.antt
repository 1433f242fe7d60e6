-- ===== src/Crypto/Handshake/Agreement.antt =====
-- Key agreement in crypto/src/handshake.cpp: two sides that complete with each other's frames hold the
-- same keys.
use pqc_edr.Base.{◌≡◌, sym, ap, subst, ◌∙◌, not, [], ◌∷◌, ◌++◌, Option, some}
use pqc_edr.Base.Words.{Bytes}
use pqc_edr.Crypto.Result.{throw_if, client_not_authentic, Result, ok, >>=-eq-ok}
use pqc_edr.Crypto.Primitives.{verify, Libs, sha256}
use pqc_edr.Crypto.Record.{make_direction}
use pqc_edr.Crypto.Wire.{ClientHello, ServerHello, parse_client_auth}
use pqc_edr.Crypto.Wire.RoundTrip.{parse-serialize_client_hello, parse-serialize_server_hello}
use pqc_edr.Crypto.Handshake.{
  Identity, Channel, Entropy, run, make_channel, ServerStart, ClientStart, Agreed, client_start,
  client_agree, client_handshake, server_start, server_agree, server_finish, server_handshake,
}
use pqc_edr.Crypto.Handshake.Runs.{client_run, server_run}
use pqc_edr.Crypto.Handshake.Laws.{
  AgreementLaws, kem_keypair-inv, encaps-inv, decaps-inv, compute_shared-inv, x25519_public_key-inv,
}
use pqc_edr.Crypto.Handshake.Stages.{began, answered, Secrets, client-Secrets, server-Secrets}

channel_parts :
    (k i l j : Bytes) (c : Channel)
    → make_channel k i l j ≡ ok c
    → (make_direction k i ≡ ok c.sender) × (make_direction l j ≡ ok c.receiver)
unfolding make_channel
channel_parts k i l j c h =
    let (sender, made, h1) = >>=-eq-ok (make_direction k i) _ h in
    let (receiver, made', h2) = >>=-eq-ok (make_direction l j) _ h1 in
    let built : ◌≡◌ {A = Result Channel} (ok (record { sender = sender; receiver = receiver }))
        (ok c) =
      h2 in
    let same : record { sender = sender; receiver = receiver } ≡ c = cc in
    subst
      (λ (d : Channel). (make_direction k i ≡ ok d.sender) × (make_direction l j ≡ ok d.receiver))
      same (made, made')

ok_injective {ℓ} : {V : Type ℓ} {r : Result V} (v w : V) → r ≡ ok v → r ≡ ok w → v ≡ w
ok_injective v w h i = cc

some_injective {ℓ} : {V : Type ℓ} {o : Option V} (v w : V) → o ≡ some v → o ≡ some w → v ≡ w
some_injective v w h i = cc

module _ (lib : Libs) where
  server_made :
      (e : Entropy) (id : Identity) (a : Agreed) (sa_frame ca_frame : Bytes) (d : Channel)
      → server_finish lib e id a sa_frame ca_frame ≡ ok d
      → make_channel a.keys.s2c_key a.keys.s2c_iv a.keys.c2s_key a.keys.c2s_iv ≡ ok d
  unfolding server_finish
  server_made e id a sa_frame ca_frame d h =
      let (ca, _, h1) = >>=-eq-ok (parse_client_auth ca_frame) _ h in
      let (th2, _, h2) = >>=-eq-ok (sha256 lib (a.acc ++ sa_frame)) _ h1 in
      let (_, _, h3) =
        >>=-eq-ok
          (throw_if (not (verify lib th2 ca.signature id.peer_sig_public)) client_not_authentic) _
          h2 in
      h3

  same_keys :
      (random random' answer acc : Bytes) (a b : Agreed) (s : Secrets lib random answer acc a)
      (t : Secrets lib random' answer acc b)
      → random ≡ random'
      → s.classical ≡ t.classical
      → s.pq ≡ t.pq
      → a.keys ≡ b.keys
  same_keys random random' answer acc a b s t start classical pq =
      let hash : s.th ≡ t.th = ok_injective s.th t.th s.hashed t.hashed in
      ok_injective a.keys b.keys s.keyed (rw (start, classical, pq, hash) t.keyed)

  module _ (laws : AgreementLaws lib) where
    -- Both ends of the hybrid exchange hold the same keys.
    agreed_keys :
        (e f : Entropy) (id id' : Identity) (st : ClientStart) (ss : ServerStart) (x : Bytes)
        (a b : Agreed)
        → client_start lib e id ≡ ok st
        → server_start lib f id' x st.ch_frame ≡ ok ss
        → client_agree lib e id st ss.sh_frame ≡ ok a
        → server_agree lib f id' ss st.ch_frame ≡ ok b
        → a.keys ≡ b.keys
    agreed_keys e f id id' st ss x a b h1 h2 h3 h4 =
        let c = began lib e id st h1 in
        let d = answered lib f id' x st.ch_frame ss h2 in
        let pair = kem_keypair-inv lib e.kem st.kem_kp c.pair in
        let sealed = encaps-inv lib f.kem ss.ch.mlkem_pub ss.enc d.sealed in
        let hello : ClientHello = record {
          client_random = st.client_random;
          x25519_pub = c.public;
          mlkem_pub = st.kem_kp.public_key;
        } in
        let answer : ServerHello = record {
          server_random = ss.server_random;
          x25519_pub = d.public;
          mlkem_ct = ss.enc.ciphertext;
        } in
        let read =
          parse-serialize_client_hello hello st.ch_frame c.hello
            (laws.public_nonempty _ _ _ pair) in
        let read' =
          parse-serialize_server_hello answer ss.sh_frame d.hello
            (laws.ciphertext_nonempty _ _ _ _ sealed) in
        let same : ss.ch ≡ hello = ok_injective ss.ch hello d.parsed read in
        let (s, exchanged, opened) = client-Secrets lib e id st ss.sh_frame answer a read' h3 in
        let (t, exchanged', pq) = server-Secrets lib f id' ss st.ch_frame b h4 in
        let point : ss.ch.x25519_pub ≡ c.public = ap (λ (m : ClientHello). m.x25519_pub) same in
        let secret = compute_shared-inv lib st.x_client d.public s.classical exchanged in
        let secret' =
          subst (λ (p : Bytes). lib.evp_derive ss.x_server p ≡ some t.classical) point
            (compute_shared-inv lib ss.x_server ss.ch.x25519_pub t.classical exchanged') in
        let exchange =
          laws.exchange_agrees st.x_client ss.x_server c.public d.public
            (x25519_public_key-inv lib st.x_client c.public c.raw)
            (x25519_public_key-inv lib ss.x_server d.public d.raw) in
        let target : ss.ch.mlkem_pub ≡ st.kem_kp.public_key =
          ap (λ (m : ClientHello). m.mlkem_pub) same in
        let sealed' =
          subst
            (λ (p : Bytes).
              lib.oqs_kem_encaps f.kem p ≡ some (ss.enc.ciphertext, ss.enc.shared_secret))
            target sealed in
        let recovered = laws.kem_agrees _ _ _ st.kem_kp.secret_key _ _ pair sealed' in
        let pq' =
          some_injective s.pq ss.enc.shared_secret (decaps-inv lib _ _ s.pq opened) recovered
          ∙ sym pq in
        same_keys st.client_random ss.ch.client_random ss.server_random (st.ch_frame ++ ss.sh_frame)
          a b s t (sym (ap (λ (m : ClientHello). m.client_random) same))
          (some_injective s.classical t.classical secret (exchange ∙ secret')) pq'

    -- A client and a server that complete the handshake with each other's frames, unchanged and in order, hold
    -- matching channels: each one's sender has the key, the nonce base and the sequence number of the other's
    -- receiver. The two ends of an encapsulation and of an exchange agree.
    pub channels_agree :
        (e f : Entropy) (id id' : Identity) (ch_frame sh_frame sa_frame ca_frame : Bytes)
        (c d : Channel)
        → run (client_handshake lib e id) (sh_frame ∷ sa_frame ∷ [])
          ≡ (ok c, ch_frame ∷ ca_frame ∷ [])
        → run (server_handshake lib f id') (ch_frame ∷ ca_frame ∷ [])
          ≡ (ok d, sh_frame ∷ sa_frame ∷ [])
        → (c.sender ≡ d.receiver) × (c.receiver ≡ d.sender)
    channels_agree e f id id' ch_frame sh_frame sa_frame ca_frame c d hc hd =
        let r = client_run lib e id _ c _ hc in
        let q = server_run lib f id' _ d _ hd in
        let sent_hello : q.ch_frame ≡ r.st.ch_frame = let a = r.wrote in let b = q.received in cc in
        let sent_answer : r.sh_frame ≡ q.st.sh_frame =
          let a = r.received in let b = q.wrote in cc in
        let started =
          subst (λ (t : Bytes). server_start lib f id' q.x_server t ≡ ok q.st) sent_hello
            q.started in
        let agreed' =
          subst (λ (t : Bytes). server_agree lib f id' q.st t ≡ ok q.a) sent_hello q.agreed in
        let agreed =
          subst (λ (t : Bytes). client_agree lib e id r.st t ≡ ok r.a) sent_answer r.agreed in
        let keys =
          agreed_keys e f id id' r.st q.st q.x_server r.a q.a r.started started agreed agreed' in
        let (sends, receives) = channel_parts _ _ _ _ c r.made in
        let (sends', receives') =
          channel_parts _ _ _ _ d (server_made f id' q.a q.sa_frame q.ca_frame d q.made) in
        (
          ok_injective c.sender d.receiver sends (rw keys receives'),
          ok_injective c.receiver d.sender receives (rw keys sends'),
        )
