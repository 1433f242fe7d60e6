-- ===== src/Crypto/Handshake/Authentic.antt =====
-- Mutual authentication in crypto/src/handshake.cpp: a side that gets a channel has checked the other
-- side's signature over its own transcript.
use pqc_edr.Base.{◌≡◌, refl, subst, Bool, true, false, not, List, [], ◌∷◌, ◌++◌}
use pqc_edr.Base.Words.{Bytes}
use pqc_edr.Crypto.Result.{
  Error, server_not_authentic, client_not_authentic, Result, ok, throw_if, ◌>>◌, >>=-eq-ok,
}
use pqc_edr.Crypto.Primitives.{Libs, sha256, verify, compute_shared, decaps}
use pqc_edr.Crypto.Session.{SessionKeys, derive_session_keys}
use pqc_edr.Crypto.Wire.{
  ServerAuth, ClientAuth, parse_server_hello, parse_server_auth, parse_client_auth,
}
use pqc_edr.Crypto.Handshake.{
  Identity, Channel, Entropy, run, ServerStart, ClientStart, Agreed, client_agree,
  client_auth_frame, client_handshake, server_agree, server_finish, server_handshake,
}
use pqc_edr.Crypto.Handshake.Runs.{client_run, server_run}

-- The frame carries a signature of the pinned peer over the hash of the transcript.
pub record IsSigned (lib : Libs) (id : Identity) (transcript signature : Bytes) : Type 0 where
  pub hash : Bytes
  pub hashed : sha256 lib transcript ≡ ok hash
  pub verified : verify lib hash signature id.peer_sig_public ≡ true

not_thrown {ℓ} :
    {V : Type ℓ} (b : Bool) (e : Error) (next : Result V) (v : V)
    → (throw_if (not b) e >> next) ≡ ok v
    → (b ≡ true) × (next ≡ ok v)
not_thrown true e next v h = (refl, h)
not_thrown false e next v h = cc

module _ (lib : Libs) (e : Entropy) (id : Identity) where
  -- The hash in a side's state is that of its transcript.
  hashed_of :
      (acc th : Bytes) (keys : SessionKeys) (a : Agreed)
      → ◌≡◌ {A = Result Agreed} (ok (record { acc = acc; th = th; keys = keys })) (ok a)
      → sha256 lib acc ≡ ok th
      → (a.acc ≡ acc) × (sha256 lib a.acc ≡ ok a.th)
  hashed_of acc th keys a h hashed =
      let same : record { acc = acc; th = th; keys = keys } ≡ a = cc in
      subst (λ (b : Agreed). (b.acc ≡ acc) × (sha256 lib b.acc ≡ ok b.th)) same (refl, hashed)

  client_transcript :
      (st : ClientStart) (sh_frame : Bytes) (a : Agreed)
      → client_agree lib e id st sh_frame ≡ ok a
      → (a.acc ≡ st.ch_frame ++ sh_frame) × (sha256 lib a.acc ≡ ok a.th)
  unfolding client_agree
  client_transcript st sh_frame a h =
      let (sh, _, h1) = >>=-eq-ok (parse_server_hello sh_frame) _ h in
      let (classical, _, h2) = >>=-eq-ok (compute_shared lib st.x_client sh.x25519_pub) _ h1 in
      let (pq, _, h3) = >>=-eq-ok (decaps lib sh.mlkem_ct st.kem_kp.secret_key) _ h2 in
      let (th, hashed, h4) = >>=-eq-ok (sha256 lib (st.ch_frame ++ sh_frame)) _ h3 in
      let (keys, _, h5) =
        >>=-eq-ok (derive_session_keys lib classical pq st.client_random sh.server_random th) _
          h4 in
      hashed_of (st.ch_frame ++ sh_frame) th keys a h5 hashed

  server_transcript :
      (st : ServerStart) (ch_frame : Bytes) (a : Agreed)
      → server_agree lib e id st ch_frame ≡ ok a
      → (a.acc ≡ ch_frame ++ st.sh_frame) × (sha256 lib a.acc ≡ ok a.th)
  unfolding server_agree
  server_transcript st ch_frame a h =
      let (classical, _, h1) = >>=-eq-ok (compute_shared lib st.x_server st.ch.x25519_pub) _ h in
      let (th, hashed, h2) = >>=-eq-ok (sha256 lib (ch_frame ++ st.sh_frame)) _ h1 in
      let (keys, _, h3) =
        >>=-eq-ok
          (derive_session_keys lib classical st.enc.shared_secret st.ch.client_random
            st.server_random th)
          _ h2 in
      hashed_of (ch_frame ++ st.sh_frame) th keys a h3 hashed

  client_checked :
      (a : Agreed) (sa_frame ca_frame : Bytes)
      → client_auth_frame lib e id a sa_frame ≡ ok ca_frame
      → (sa : ServerAuth) × (parse_server_auth sa_frame ≡ ok sa)
        × (verify lib a.th sa.signature id.peer_sig_public ≡ true)
  unfolding client_auth_frame
  client_checked a sa_frame ca_frame h =
      let (sa, parsed, h1) = >>=-eq-ok (parse_server_auth sa_frame) _ h in
      let (good, _) =
        not_thrown (verify lib a.th sa.signature id.peer_sig_public) server_not_authentic _ _ h1 in
      (sa, parsed, good)

  server_checked :
      (a : Agreed) (sa_frame ca_frame : Bytes) (c : Channel)
      → server_finish lib e id a sa_frame ca_frame ≡ ok c
      → (ca : ClientAuth) × (parse_client_auth ca_frame ≡ ok ca)
        × IsSigned lib id (a.acc ++ sa_frame) ca.signature
  unfolding server_finish
  server_checked a sa_frame ca_frame c h =
      let (ca, parsed, h1) = >>=-eq-ok (parse_client_auth ca_frame) _ h in
      let (th2, hashed, h2) = >>=-eq-ok (sha256 lib (a.acc ++ sa_frame)) _ h1 in
      let (good, _) =
        not_thrown (verify lib th2 ca.signature id.peer_sig_public) client_not_authentic _ _ h2 in
      (ca, parsed, record { hash = th2; hashed = hashed; verified = good })

  -- A client that gets a channel, whatever frames came in, has received a ServerHello and a ServerAuth frame,
  -- and the signature in the latter verifies under the pinned key of the server over the hash of the
  -- ClientHello that this client sent and the ServerHello that it received.
  pub client_authenticates :
      (frames sent : List Bytes) (c : Channel)
      → run (client_handshake lib e id) frames ≡ (ok c, sent)
      → (ch_frame : Bytes) × (ca_frame : Bytes) × (sh_frame : Bytes) × (sa_frame : Bytes)
        × (rest : List Bytes) × (sent ≡ ch_frame ∷ ca_frame ∷ [])
        × (frames ≡ sh_frame ∷ sa_frame ∷ rest)
        × (sa : ServerAuth) × (parse_server_auth sa_frame ≡ ok sa)
        × IsSigned lib id (ch_frame ++ sh_frame) sa.signature
  client_authenticates frames sent c h =
      let r = client_run lib e id frames c sent h in
      let (acc, hashed) = client_transcript r.st r.sh_frame r.a r.agreed in
      let (sa, parsed, good) = client_checked r.a r.sa_frame r.ca_frame r.authentic in
      let signed : IsSigned lib id (r.st.ch_frame ++ r.sh_frame) sa.signature =
        subst (λ (t : Bytes). IsSigned lib id t sa.signature) acc
          (record { hash = r.a.th; hashed = hashed; verified = good }) in
      (
        r.st.ch_frame, r.ca_frame, r.sh_frame, r.sa_frame, r.rest, r.wrote, r.received, sa, parsed,
        signed,
      )

  -- A server that gets a channel, whatever frames came in, has received a ClientHello and a ClientAuth frame,
  -- and the signature in the latter verifies under the pinned key of the client over the hash of the
  -- ClientHello that it received and of the ServerHello and the ServerAuth that it sent.
  pub server_authenticates :
      (frames sent : List Bytes) (c : Channel)
      → run (server_handshake lib e id) frames ≡ (ok c, sent)
      → (sh_frame : Bytes) × (sa_frame : Bytes) × (ch_frame : Bytes) × (ca_frame : Bytes)
        × (rest : List Bytes) × (sent ≡ sh_frame ∷ sa_frame ∷ [])
        × (frames ≡ ch_frame ∷ ca_frame ∷ rest)
        × (ca : ClientAuth) × (parse_client_auth ca_frame ≡ ok ca)
        × IsSigned lib id ((ch_frame ++ sh_frame) ++ sa_frame) ca.signature
  server_authenticates frames sent c h =
      let r = server_run lib e id frames c sent h in
      let (acc, _) = server_transcript r.st r.ch_frame r.a r.agreed in
      let (ca, parsed, signed) = server_checked r.a r.sa_frame r.ca_frame c r.made in
      let signed' =
        subst (λ (t : Bytes). IsSigned lib id (t ++ r.sa_frame) ca.signature) acc signed in
      (
        r.st.sh_frame, r.sa_frame, r.ch_frame, r.ca_frame, r.rest, r.wrote, r.received, ca, parsed,
        signed',
      )
