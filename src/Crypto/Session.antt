-- ===== src/Crypto/Session.antt =====
-- The key schedule: crypto/src/session.cpp and crypto/include/pqsec/session.h.
use pqc_edr.Base.{◌++◌}
use pqc_edr.Base.Words.{Bytes}
use pqc_edr.Base.Text.{text}
use pqc_edr.Crypto.Result.{Result, ok, ◌>>=◌}
use pqc_edr.Crypto.Primitives.{Libs, hkdf_extract, hkdf_expand}

pub record SessionKeys : Type 0 where
  pub c2s_key : Bytes
  pub s2c_key : Bytes
  pub c2s_iv : Bytes
  pub s2c_iv : Bytes

module _ (lib : Libs) where
  unfoldable pub derive_session_keys : Bytes → Bytes → Bytes → Bytes → Bytes → Result SessionKeys
  derive_session_keys ss_classical ss_pq client_random server_random transcript_hash = do
    prk ← hkdf_extract lib (client_random ++ server_random) (ss_classical ++ ss_pq)
    c2s_key ← hkdf_expand lib prk (text "pqsec c2s key" ++ transcript_hash) 32
    s2c_key ← hkdf_expand lib prk (text "pqsec s2c key" ++ transcript_hash) 32
    c2s_iv ← hkdf_expand lib prk (text "pqsec c2s iv" ++ transcript_hash) 12
    s2c_iv ← hkdf_expand lib prk (text "pqsec s2c iv" ++ transcript_hash) 12
    ok (record { c2s_key = c2s_key; s2c_key = s2c_key; c2s_iv = c2s_iv; s2c_iv = s2c_iv })
