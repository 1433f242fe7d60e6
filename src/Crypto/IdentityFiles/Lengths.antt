-- ===== src/Crypto/IdentityFiles/Lengths.antt =====
-- What a loaded identity of crypto/src/identity.cpp is good for.
use pqc_edr.Base.{◌≡◌, Option, some, length, arith}
use pqc_edr.Base.Words.{Bytes}
use pqc_edr.Crypto.Result.{ok, >>=-eq-ok}
use pqc_edr.Crypto.Primitives.{Libs, new_dsa}
use pqc_edr.Crypto.Handshake.{Identity}
use pqc_edr.Crypto.IdentityFiles.{read_bytes_file, load_identity}

module _ (lib : Libs) (files : Bytes → Option Bytes) where
  read-inv :
      (path content : Bytes)
      → read_bytes_file lib files path ≡ ok content
      → files path ≡ some content
  unfolding read_bytes_file
  read-inv path content h = ground arith

  -- An identity that is loaded has the contents of the three files, in their places, and each key has the
  -- length of its kind.
  pub load_identity_lem :
      (mine secret peer : Bytes) (id : Identity)
      → load_identity lib files mine secret peer ≡ ok id
      → (files mine ≡ some id.sig_public)
        × (files secret ≡ some id.sig_secret)
        × (files peer ≡ some id.peer_sig_public)
        × (length id.sig_public ≡ lib.sig_public_len)
        × (length id.sig_secret ≡ lib.sig_secret_len)
        × (length id.peer_sig_public ≡ lib.sig_public_len)
  unfolding load_identity
  load_identity_lem mine secret peer id h =
      let (_, _, h1) = >>=-eq-ok (new_dsa lib) _ h in
      let (a, ra, h2) = >>=-eq-ok (read_bytes_file lib files mine) _ h1 in
      let (b, rb, h3) = >>=-eq-ok (read_bytes_file lib files secret) _ h2 in
      let (c, rc, h4) = >>=-eq-ok (read_bytes_file lib files peer) _ h3 in
      let fa = read-inv mine a ra in
      let fb = read-inv secret b rb in let fc = read-inv peer c rc in ground (arith, h4)
