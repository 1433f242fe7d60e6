-- ===== src/Base/Bits.antt =====
-- The digit laws of `|`, `&` and `^` on the native numbers, and what the program uses of them.
use Prim.Native.Nat.{
  ℕ, zero, suc, ◌+◌, ◌*◌, ◌^◌, ◌/◌, ◌%◌, ◌≤◌, ◌<◌, min, max, digits, bitwise, bit_and, bit_or,
  bit_xor, bit_and-bitwise, bit_or-bitwise, bit_xor-bitwise, differ,
}
use mathlib.Core.Path.{◌≡◌, refl, ap}
use native.Mathlib.Nat.{pow-suc}
use native.Mathlib.Omega.{arith}

module _ (rest : ℕ → ℕ) (digit : ℕ → ℕ → ℕ) where
  -- More rounds than the number needs change nothing.
  enough_rounds : (r s v w : ℕ) → v ≤ s → v ≤ r → digits rest digit r v w ≡ digits rest digit s v w
  enough_rounds (suc r) (suc s) (suc v) w hs hr =
      let higher = enough_rounds r s (suc v / 2) (w / 2) (omega arith) (omega arith) in
      ap (λ (d : ℕ). d * 2 + digit (suc v % 2) (w % 2)) higher
  enough_rounds (suc r) (suc s) zero w hs hr = refl
  enough_rounds (suc r) zero (suc v) w hs hr = absurd (omega (arith, hs))
  enough_rounds zero (suc s) (suc v) w hs hr = absurd (omega (arith, hr))
  enough_rounds (suc r) zero zero w hs hr = refl
  enough_rounds zero (suc s) zero w hs hr = refl
  enough_rounds zero zero v w hs hr = refl

  -- The lowest digit and the others.
  lowest_digit :
      (v w : ℕ)
      → bitwise rest digit (suc v) w
        ≡ digit (suc v % 2) (w % 2) + 2 * bitwise rest digit (suc v / 2) (w / 2)
  lowest_digit v w =
      let half : suc v / 2 ≤ v = omega arith in
      omega (arith, enough_rounds v (suc v / 2) (suc v / 2) (w / 2) (omega arith) half)

bit_xor_step : (v w : ℕ) → bit_xor v w ≡ differ (v % 2) (w % 2) + 2 * bit_xor (v / 2) (w / 2)
bit_xor_step (suc v) w = simp bit_xor-bitwise (lowest_digit (λ u. u) differ v w)
bit_xor_step zero w = simp bit_xor-bitwise (omega arith)

bit_or_step : (v w : ℕ) → bit_or v w ≡ max (v % 2) (w % 2) + 2 * bit_or (v / 2) (w / 2)
bit_or_step (suc v) w = simp bit_or-bitwise (lowest_digit (λ u. u) max v w)
bit_or_step zero w = simp bit_or-bitwise (omega arith)

pub bit_and_step : (v w : ℕ) → bit_and v w ≡ min (v % 2) (w % 2) + 2 * bit_and (v / 2) (w / 2)
bit_and_step (suc v) w = simp bit_and-bitwise (lowest_digit (λ u. 0) min v w)
bit_and_step zero w = simp bit_and-bitwise (omega arith)

or-zero_below : (n a : ℕ) → a < n → bit_or a 0 ≡ a
or-zero_below zero a h = absurd (omega arith)
or-zero_below (suc n) zero h = refl
or-zero_below (suc n) (suc a) h =
    omega (arith, bit_or_step (suc a) 0, or-zero_below n (suc a / 2) (omega arith))

or-zero : (a : ℕ) → bit_or a 0 ≡ a
or-zero a = or-zero_below (suc a) a (omega arith)

-- `hi << 8 | lo` for a byte `lo`.
or_shifted : (k hi lo : ℕ) → lo < 2 ^ k → bit_or (hi * 2 ^ k) lo ≡ hi * 2 ^ k + lo
or_shifted zero hi lo h = ground (arith, or-zero hi)
or_shifted (suc k) hi lo h =
    let double : hi * 2 ^ suc k ≡ 2 * (hi * 2 ^ k) =
      omega (arith, ap (λ (t : ℕ). hi * t) (pow-suc 2 k)) in
    ground (
      arith,
      bit_or_step (hi * 2 ^ suc k) lo,
      double,
      pow-suc 2 k,
      or_shifted k hi (lo / 2) (omega arith),
    )

pub bit_or_byte : (hi lo : ℕ) → lo < 256 → bit_or (hi * 256) lo ≡ hi * 256 + lo
bit_or_byte hi lo h = or_shifted 8 hi lo h

-- `v & 0xff`
and-zero_below : (n a : ℕ) → a < n → bit_and a 0 ≡ 0
and-zero_below zero a h = absurd (omega arith)
and-zero_below (suc n) zero h = refl
and-zero_below (suc n) (suc a) h =
    omega (arith, bit_and_step (suc a) 0, and-zero_below n (suc a / 2) (omega arith))

and_one : (a : ℕ) → bit_and a 1 ≡ a % 2
and_one a = omega (arith, bit_and_step a 1, and-zero_below (suc (a / 2)) (a / 2) (omega arith))

and_fifteen : (a : ℕ) → bit_and a 15 ≡ a % 16
and_fifteen a = omega (
  arith,
  bit_and_step a 15,
  bit_and_step (a / 2) 7,
  bit_and_step (a / 2 / 2) 3,
  and_one (a / 2 / 2 / 2),
)

pub bit_and_byte : (v : ℕ) → bit_and v 0xff ≡ v % 256
bit_and_byte v = omega (
  arith,
  bit_and_step v 255,
  bit_and_step (v / 2) 127,
  bit_and_step (v / 2 / 2) 63,
  bit_and_step (v / 2 / 2 / 2) 31,
  and_fifteen (v / 2 / 2 / 2 / 2),
)

-- A byte is found again by a second `^` with the same mask.
differ_bits : (p q : ℕ) → p < 2 → q < 2 → (differ p q < 2) × (differ p (differ p q) ≡ q)
differ_bits zero q hp hq = (hq, refl)
differ_bits (suc zero) zero hp hq = (omega arith, refl)
differ_bits (suc zero) (suc zero) hp hq = (omega arith, refl)
differ_bits (suc zero) (suc (suc q)) hp hq = absurd (omega arith)
differ_bits (suc (suc p)) q hp hq = absurd (omega arith)

pub bit_xor_cancel : (n a b : ℕ) → a < n → bit_xor a (bit_xor a b) ≡ b
bit_xor_cancel zero a b h = absurd (omega arith)
bit_xor_cancel (suc n) zero b h = simp bit_xor-bitwise
bit_xor_cancel (suc n) (suc a) b h =
    let bits = differ_bits (suc a % 2) (b % 2) (omega arith) (omega arith) in
    let x : ℕ = bit_xor (suc a) b in
    let half : x / 2 ≡ bit_xor (suc a / 2) (b / 2) = omega (arith, bit_xor_step (suc a) b) in
    let low : x % 2 ≡ differ (suc a % 2) (b % 2) = omega (arith, bit_xor_step (suc a) b) in
    let ih = bit_xor_cancel n (suc a / 2) (b / 2) (omega arith) in
    ground (arith, bit_xor_step (suc a) x, half, low, ih, bits.1)
