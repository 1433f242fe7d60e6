-- ===== src/Crypto/IdentityFiles.antt =====
-- The identity files: crypto/src/identity.cpp. The file system is a parameter; a file that cannot be read
-- is `none`.
pub mod Lengths
pub mod Writing
pub mod Provisioned
use pqc_edr.Base.{ℕ, Bool, not, ◌||◌, Option, length, ◌==◌}
use pqc_edr.Base.Words.{Bytes}
use pqc_edr.Crypto.Result.{Result, ok, ◌>>=◌, ◌>>◌, throw_if, file_failed, identity_length}
use pqc_edr.Crypto.Primitives.{Libs, new_dsa, or_throw}
use pqc_edr.Crypto.Handshake.{Identity}

module _ (lib : Libs) (files : Bytes → Option Bytes) where
  unfoldable pub read_bytes_file : Bytes → Result Bytes
  read_bytes_file path = or_throw (files path) file_failed

  unfoldable pub load_identity : Bytes → Bytes → Bytes → Result Identity
  load_identity my_pub_path my_key_path peer_pub_path = do
    new_dsa lib
    sig_public ← read_bytes_file my_pub_path
    sig_secret ← read_bytes_file my_key_path
    peer_sig_public ← read_bytes_file peer_pub_path
    throw_if
        (not (length sig_public == lib.sig_public_len)
          || (not (length sig_secret == lib.sig_secret_len)
              || not (length peer_sig_public == lib.sig_public_len)))
        identity_length
    ok (record {
      sig_public = sig_public;
      sig_secret = sig_secret;
      peer_sig_public = peer_sig_public;
    })
