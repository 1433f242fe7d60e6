-- ===== src/Crypto/Wire/ReaderOps.antt =====
-- `Reader` of crypto/src/wire.cpp: each method returns what it read and the moved reader, or throws.
use pqc_edr.Base.{ℕ, ◌+◌, ◌-◌, length, get_or, take, drop, ltb}
use pqc_edr.Base.Words.{Bytes, join_bytes}
use pqc_edr.Crypto.Result.{truncated, wire, Result, ok, ◌>>◌, throw_if}

pub record Reader : Type 0 where
  pub buf : Bytes
  pub pos : ℕ

abbrev pub remaining : Reader → ℕ
remaining r = length r.buf - r.pos

abbrev pub need : Reader → ℕ → Result (Unit {0})
need r n = throw_if (ltb (length r.buf) (r.pos + n)) (wire truncated)

abbrev pub u8 : Reader → Result (ℕ × Reader)
u8 r = do need r 1; ok (get_or r.buf r.pos 0, record r { pos = r.pos + 1 })

abbrev pub u16 : Reader → Result (ℕ × Reader)
u16 r = do
  need r 2
  ok (join_bytes (get_or r.buf r.pos 0) (get_or r.buf (r.pos + 1) 0), record r { pos = r.pos + 2 })

abbrev pub bytes : Reader → ℕ → Result (Bytes × Reader)
bytes r n = do need r n; ok (take n (drop r.pos r.buf), record r { pos = r.pos + n })
