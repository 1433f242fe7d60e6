-- ===== src/Crypto/Handshake.antt =====
-- The handshake of agent and analyzer: crypto/src/handshake.cpp and crypto/include/pqsec/handshake.h.
-- A side is the sequence of its sends and receives; `run` gives it the frames that come in. A frame that
-- does not come is the transport's exception.
pub mod Runs
pub mod Authentic
pub mod Laws
pub mod Stages
pub mod Agreement
pub mod Delivery
use pqc_edr.Base.{ℕ, Bool, true, false, not, List, [], ◌∷◌, ◌++◌}
use pqc_edr.Base.Words.{Bytes}
use pqc_edr.Crypto.Result.{
  Error, Result, ok, err, ◌>>=◌, ◌>>◌, throw_if, socket, closed_in_handshake, server_not_authentic,
  client_not_authentic,
}
use pqc_edr.Crypto.Primitives.{
  Libs, KeyPair, EncapsResult, sha256, new_kem, new_dsa, kem_keypair, encaps, decaps, sign, verify,
  new_x25519, x25519_public_key, compute_shared, random_bytes,
}
use pqc_edr.Crypto.Session.{SessionKeys, derive_session_keys}
use pqc_edr.Crypto.Record.{Direction, make_direction}
use pqc_edr.Crypto.Wire.{
  ClientHello, ServerHello, ServerAuth, ClientAuth, random_len, serialize_client_hello,
  parse_client_hello, serialize_server_hello, parse_server_hello, serialize_server_auth,
  parse_server_auth, serialize_client_auth, parse_client_auth,
}

pub record Identity : Type 0 where
  pub sig_public : Bytes
  pub sig_secret : Bytes
  pub peer_sig_public : Bytes

pub record Channel : Type 0 where
  pub sender : Direction
  pub receiver : Direction

-- The randomness of one side, a part for each call that draws some.
pub record Entropy : Type 0 where
  pub x25519 : Bytes
  pub kem : Bytes
  pub random : Bytes
  pub signing : Bytes

-- What a side does to its `Transport`, and how it ends.
pub data Process : Type 0 where
  send : Bytes → Process → Process
  recv : (Bytes → Process) → Process
  finish : Result Channel → Process

-- A call that may throw, and the rest of the function.
abbrev pub attempt {ℓ} : {A : Type ℓ} → Result A → (A → Process) → Process
attempt (err e) rest = finish (err e)
attempt (ok a) rest = rest a

-- The result of a side, and the frames that it sent.
unfoldable pub run : Process → List Bytes → Result Channel × List Bytes
run (send f p) frames = let r = run p frames in (r.0, f ∷ r.1)
run (recv p) [] = (err (socket closed_in_handshake), [])
run (recv p) (f ∷ frames) = run (p f) frames
run (finish r) frames = (r, [])

-- The two directions of a channel, from a side's keys.
unfoldable pub make_channel : Bytes → Bytes → Bytes → Bytes → Result Channel
make_channel send_key send_iv recv_key recv_iv = do
  sender ← make_direction send_key send_iv
  receiver ← make_direction recv_key recv_iv
  ok (record { sender = sender; receiver = receiver })

-- The client after its first frame.
pub record ClientStart : Type 0 where
  pub x_client : Bytes
  pub kem_kp : KeyPair
  pub client_random : Bytes
  pub ch_frame : Bytes

pub record ServerStart : Type 0 where
  pub x_server : Bytes
  pub ch : ClientHello
  pub enc : EncapsResult
  pub server_random : Bytes
  pub sh_frame : Bytes

-- The transcript so far, its hash, and the keys.
pub record Agreed : Type 0 where
  pub acc : Bytes
  pub th : Bytes
  pub keys : SessionKeys

module _ (lib : Libs) (e : Entropy) (id : Identity) where
  unfoldable pub client_start : Result ClientStart
  client_start = do
    new_kem lib
    new_dsa lib
    x_client ← new_x25519 lib e.x25519
    kem_kp ← kem_keypair lib e.kem
    client_random ← random_bytes lib e.random random_len
    x25519_pub ← x25519_public_key lib x_client
    ch_frame ← serialize_client_hello (record {
      client_random = client_random;
      x25519_pub = x25519_pub;
      mlkem_pub = kem_kp.public_key;
    })
    ok (record {
      x_client = x_client;
      kem_kp = kem_kp;
      client_random = client_random;
      ch_frame = ch_frame;
    })

  unfoldable pub client_agree : ClientStart → Bytes → Result Agreed
  client_agree st sh_frame = do
    sh ← parse_server_hello sh_frame
    ss_classical ← compute_shared lib st.x_client sh.x25519_pub
    ss_pq ← decaps lib sh.mlkem_ct st.kem_kp.secret_key
    th ← sha256 lib (st.ch_frame ++ sh_frame)
    keys ← derive_session_keys lib ss_classical ss_pq st.client_random sh.server_random th
    ok (record { acc = st.ch_frame ++ sh_frame; th = th; keys = keys })

  -- Checks the server's signature and gives the ClientAuth frame.
  unfoldable pub client_auth_frame : Agreed → Bytes → Result Bytes
  client_auth_frame a sa_frame = do
    sa ← parse_server_auth sa_frame
    throw_if (not (verify lib a.th sa.signature id.peer_sig_public)) server_not_authentic
    th2 ← sha256 lib (a.acc ++ sa_frame)
    client_sig ← sign lib e.signing th2 id.sig_secret
    serialize_client_auth (record { signature = client_sig })

  unfoldable pub client_handshake : Process
  client_handshake = attempt client_start λ st. send st.ch_frame (
      recv λ sh_frame. attempt (client_agree st sh_frame) λ a. recv λ sa_frame.
        attempt (client_auth_frame a sa_frame) λ ca_frame.
          send ca_frame
            (finish (make_channel a.keys.c2s_key a.keys.c2s_iv a.keys.s2c_key a.keys.s2c_iv)))

  unfoldable pub server_new : Result Bytes
  server_new = do new_kem lib; new_dsa lib; new_x25519 lib e.x25519

  unfoldable pub server_start : Bytes → Bytes → Result ServerStart
  server_start x_server ch_frame = do
    ch ← parse_client_hello ch_frame
    enc ← encaps lib e.kem ch.mlkem_pub
    server_random ← random_bytes lib e.random random_len
    x25519_pub ← x25519_public_key lib x_server
    sh_frame ← serialize_server_hello (record {
      server_random = server_random;
      x25519_pub = x25519_pub;
      mlkem_ct = enc.ciphertext;
    })
    ok (record {
      x_server = x_server;
      ch = ch;
      enc = enc;
      server_random = server_random;
      sh_frame = sh_frame;
    })

  unfoldable pub server_agree : ServerStart → Bytes → Result Agreed
  server_agree st ch_frame = do
    ss_classical ← compute_shared lib st.x_server st.ch.x25519_pub
    th ← sha256 lib (ch_frame ++ st.sh_frame)
    keys ←
        derive_session_keys lib ss_classical st.enc.shared_secret st.ch.client_random
          st.server_random th
    ok (record { acc = ch_frame ++ st.sh_frame; th = th; keys = keys })

  unfoldable pub server_auth_frame : Agreed → Result Bytes
  server_auth_frame a = do
    server_sig ← sign lib e.signing a.th id.sig_secret
    serialize_server_auth (record { signature = server_sig })

  -- Checks the client's signature and gives the channel.
  unfoldable pub server_finish : Agreed → Bytes → Bytes → Result Channel
  server_finish a sa_frame ca_frame = do
    ca ← parse_client_auth ca_frame
    th2 ← sha256 lib (a.acc ++ sa_frame)
    throw_if (not (verify lib th2 ca.signature id.peer_sig_public)) client_not_authentic
    make_channel a.keys.s2c_key a.keys.s2c_iv a.keys.c2s_key a.keys.c2s_iv

  unfoldable pub server_handshake : Process
  server_handshake = attempt server_new λ x_server. recv λ ch_frame.
      attempt (server_start x_server ch_frame) λ st. send st.sh_frame (
        attempt (server_agree st ch_frame) λ a.
          attempt (server_auth_frame a)
            λ sa_frame. send sa_frame (recv λ ca_frame. finish (server_finish a sa_frame ca_frame)))
