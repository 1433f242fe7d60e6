-- ===== src/Base/Words.antt =====
-- Bytes and 16-bit words: `uint8_t`, `uint16_t` and their big-endian bytes, as the C++ computes them.
use Prim.Native.Nat.{ℕ, ◌+◌, ◌*◌, ◌/◌, ◌%◌, ◌^◌, ◌<◌, bit_and, bit_or}
use mathlib.Core.Path.{◌≡◌}
use mathlib.Core.List.{List}
use native.Mathlib.Omega.{arith}
use pqc_edr.Base.Lists.{All}
use pqc_edr.Base.Bits.{bit_or_byte, bit_and_byte}

-- `std::vector<uint8_t>` and `std::string`: a list of byte values.
abbrev pub Bytes : Type 0
Bytes = List ℕ

abbrev pub IsByte : ℕ → Type 0
IsByte b = b < 256

abbrev pub AreBytes : Bytes → Type 0
AreBytes = All IsByte

-- `static_cast<uint8_t>(v >> 8)` and `static_cast<uint8_t>(v & 0xff)`
unfoldable pub high_byte : ℕ → ℕ
high_byte v = v / 2 ^ 8 % 2 ^ 8

unfoldable pub low_byte : ℕ → ℕ
low_byte v = bit_and v 0xff % 2 ^ 8

-- `static_cast<uint16_t>(hi << 8 | lo)`
unfoldable pub join_bytes : ℕ → ℕ → ℕ
join_bytes hi lo = bit_or (hi * 2 ^ 8) lo % 2 ^ 16

pub high_byte-IsByte : (v : ℕ) → IsByte (high_byte v)
unfolding high_byte
high_byte-IsByte v = omega arith

pub low_byte-IsByte : (v : ℕ) → IsByte (low_byte v)
unfolding low_byte
low_byte-IsByte v = omega arith

pub join_bytes-lt : (hi lo : ℕ) → join_bytes hi lo < 2 ^ 16
unfolding join_bytes
join_bytes-lt hi lo = omega arith

pub join_bytes_lem : (hi lo : ℕ) → IsByte hi → IsByte lo → join_bytes hi lo ≡ hi * 256 + lo
unfolding join_bytes
join_bytes_lem hi lo h l = omega (arith, bit_or_byte hi lo l)

pub join_bytes-bytes : (v : ℕ) → v < 2 ^ 16 → join_bytes (high_byte v) (low_byte v) ≡ v
join_bytes-bytes v h =
    let joined = join_bytes_lem _ _ (high_byte-IsByte v) (low_byte-IsByte v) in
    unfold high_byte low_byte in omega (arith, joined, bit_and_byte v)

pub high_byte-join_bytes : (hi lo : ℕ) → IsByte hi → IsByte lo → high_byte (join_bytes hi lo) ≡ hi
high_byte-join_bytes hi lo h l = unfold high_byte in omega (arith, join_bytes_lem hi lo h l)

pub low_byte-join_bytes : (hi lo : ℕ) → IsByte hi → IsByte lo → low_byte (join_bytes hi lo) ≡ lo
low_byte-join_bytes hi lo h l =
    unfold low_byte in omega (arith, join_bytes_lem hi lo h l, bit_and_byte (join_bytes hi lo))
