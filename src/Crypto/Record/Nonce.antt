-- ===== src/Crypto/Record/Nonce.antt =====
-- `make_nonce` of crypto/src/record.cpp: different sequence numbers give different nonces.
use pqc_edr.Base.{
  ℕ, zero, suc, ◌+◌, ◌^◌, ◌≤◌, ◌<◌, ◌≡◌, ◌≢◌, refl, ap, sym, ◌∙◌, [], ◌∷◌, length, get_or, bit_xor,
  arith,
}
use native.Mathlib.Decide.{ℕ_discrete}
use pqc_edr.Base.Bits.{bit_xor_cancel}
use pqc_edr.Base.Words.{Bytes}
use pqc_edr.Crypto.Record.{xor_at, seq_byte, mix, make_nonce}

length-xor_at : (i m : ℕ) (bs : Bytes) → length (xor_at i m bs) ≡ length bs
unfolding xor_at
length-xor_at i m [] = refl
length-xor_at zero m (b ∷ bs) = refl
length-xor_at (suc i) m (b ∷ bs) = ap suc (length-xor_at i m bs)

get_or-xor_at_self :
    (i m : ℕ) (bs : Bytes) → i < length bs → get_or (xor_at i m bs) i 0 ≡ bit_xor (get_or bs i 0) m
unfolding xor_at
get_or-xor_at_self i m [] h = absurd (omega arith)
get_or-xor_at_self zero m (b ∷ bs) h = refl
get_or-xor_at_self (suc i) m (b ∷ bs) h = get_or-xor_at_self i m bs (omega arith)

get_or-xor_at_ne : (i j m : ℕ) (bs : Bytes) → i ≢ j → get_or (xor_at i m bs) j 0 ≡ get_or bs j 0
unfolding xor_at
get_or-xor_at_ne i j m [] h = refl
get_or-xor_at_ne zero zero m (b ∷ bs) h = absurd (h refl)
get_or-xor_at_ne zero (suc j) m (b ∷ bs) h = refl
get_or-xor_at_ne (suc i) zero m (b ∷ bs) h = refl
get_or-xor_at_ne (suc i) (suc j) m (b ∷ bs) h = get_or-xor_at_ne i j m bs (λ e. h (ap suc e))

-- The loop leaves the places before its index alone.
get_or-mix_before :
    (left i j seq : ℕ) (bs : Bytes)
    → j < i
    → get_or (mix left i seq bs) (4 + j) 0 ≡ get_or bs (4 + j) 0
unfolding mix
get_or-mix_before zero i j seq bs h = refl
get_or-mix_before (suc left) i j seq bs h =
    get_or-mix_before left (i + 1) j seq (xor_at (4 + i) (seq_byte seq i) bs) (omega arith)
    ∙ get_or-xor_at_ne (4 + i) (4 + j) (seq_byte seq i) bs (omega arith)

-- It mixes each later place with its byte of the sequence number.
get_or-mix :
    (left i j seq : ℕ) (bs : Bytes)
    → i ≤ j
    → j < i + left
    → 4 + j < length bs
    → get_or (mix left i seq bs) (4 + j) 0 ≡ bit_xor (get_or bs (4 + j) 0) (seq_byte seq j)
unfolding mix
get_or-mix zero i j seq bs h k l = absurd (omega arith)
get_or-mix (suc left) i j seq bs h k l =
    let rest = xor_at (4 + i) (seq_byte seq i) bs in
    elim (ℕ_discrete i j) [
      | yes here ↦
          get_or-mix_before left (i + 1) j seq rest (omega arith)
          ∙ rw here (get_or-xor_at_self (4 + j) (seq_byte seq j) bs l)
      | no later ↦
          get_or-mix left (i + 1) j seq rest (omega arith) (omega arith)
            (omega (arith, length-xor_at (4 + i) (seq_byte seq i) bs))
          ∙ ap (λ (b : ℕ). bit_xor b (seq_byte seq j))
              (get_or-xor_at_ne (4 + i) (4 + j) (seq_byte seq i) bs (omega arith))
    ]

-- Eight bytes determine a 64-bit sequence number.
seq_bytes_injective :
    (s t : ℕ) → s < 2 ^ 64 → t < 2 ^ 64 → ((j : ℕ) → j < 8 → seq_byte s j ≡ seq_byte t j) → s ≡ t
seq_bytes_injective s t hs ht h = omega (
  arith,
  h 0 (omega arith),
  h 1 (omega arith),
  h 2 (omega arith),
  h 3 (omega arith),
  h 4 (omega arith),
  h 5 (omega arith),
  h 6 (omega arith),
  h 7 (omega arith),
)

-- Under one 12-byte base, two 64-bit sequence numbers with the same nonce are the same number.
pub make_nonce_injective :
    (iv_base : Bytes) (s t : ℕ)
    → length iv_base ≡ 12
    → s < 2 ^ 64
    → t < 2 ^ 64
    → make_nonce iv_base s ≡ make_nonce iv_base t
    → s ≡ t
unfolding make_nonce
make_nonce_injective iv s t len hs ht e = seq_bytes_injective s t hs ht λ j below.
    let same : bit_xor (get_or iv (4 + j) 0) (seq_byte s j)
        ≡ bit_xor (get_or iv (4 + j) 0) (seq_byte t j) =
      sym (get_or-mix 8 0 j s iv (omega arith) (omega arith) (omega arith))
      ∙ (ap (λ (b : Bytes). get_or b (4 + j) 0) e
          ∙ get_or-mix 8 0 j t iv (omega arith) (omega arith) (omega arith)) in
    sym (
      bit_xor_cancel (suc (get_or iv (4 + j) 0)) (get_or iv (4 + j) 0) (seq_byte s j) (omega arith))
    ∙ (ap (bit_xor (get_or iv (4 + j) 0)) same
        ∙ bit_xor_cancel (suc (get_or iv (4 + j) 0)) (get_or iv (4 + j) 0) (seq_byte t j)
            (omega arith))
