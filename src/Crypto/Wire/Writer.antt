-- ===== src/Crypto/Wire/Writer.antt =====
-- `Writer` of crypto/src/wire.cpp: each method returns the buffer with what it appended.
use pqc_edr.Base.{ℕ, [], ◌∷◌, ◌++◌}
use pqc_edr.Base.Words.{Bytes, high_byte, low_byte}

abbrev pub u8 : ℕ → Bytes → Bytes
u8 v buf = buf ++ v ∷ []

abbrev pub u16 : ℕ → Bytes → Bytes
u16 v buf = (buf ++ high_byte v ∷ []) ++ low_byte v ∷ []

abbrev pub bytes : Bytes → Bytes → Bytes
bytes b buf = buf ++ b
