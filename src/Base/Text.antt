-- ===== src/Base/Text.antt =====
-- Text as bytes: literals in UTF-8, C strings, comparison, search and decimal printing.
use Prim.Native.Nat.{ℕ, zero, suc, ◌+◌, ◌*◌, ◌/◌, ◌%◌, ◌^◌, ◌≤◌, ◌<◌}
use Prim.Native.Char.{code}
use Prim.Native.String.{String}
use mathlib.Core.Path.{◌≡◌, refl, ap, ◌∙◌}
use mathlib.Core.Logic.{◌↔◌, inl, inr}
use mathlib.Core.Bool.{Bool, true, false, ◌&&◌, ◌||◌}
use mathlib.Core.List.{List, [], ◌∷◌, ◌++◌}
use native.Mathlib.Omega.{arith}
use native.Mathlib.Nat.{pow-suc}
use pqc_edr.Base.Lists.{length, All, replicate}
use pqc_edr.Base.Tests.{Bool-cases, ltb, ◌==◌, if◌then◌else◌}
use pqc_edr.Base.Words.{Bytes}

-- One code point in UTF-8.
utf8 : ℕ → Bytes
utf8 c =
    if ltb c 0x80
    then c ∷ []
    else if ltb c 0x800
    then (0xc0 + c / 64) ∷ (0x80 + c % 64) ∷ []
    else if ltb c 0x10000
    then (0xe0 + c / 4096) ∷ (0x80 + c / 64 % 64) ∷ (0x80 + c % 64) ∷ []
    else (0xf0 + c / 262144) ∷ (0x80 + c / 4096 % 64) ∷ (0x80 + c / 64 % 64) ∷ (0x80 + c % 64) ∷ []

-- The bytes of a string literal of the source.
unfoldable pub text : String → Bytes
unfolding utf8
text String.[] = []
text (String.◌∷◌ c s) = utf8 (code c) ++ text s

-- `a == b` on `std::string`
unfoldable pub bytes_eq : Bytes → Bytes → Bool
bytes_eq [] [] = true
bytes_eq [] (y ∷ ys) = false
bytes_eq (x ∷ xs) [] = false
bytes_eq (x ∷ xs) (y ∷ ys) = x == y && bytes_eq xs ys

pub bytes_eq_iff : (xs ys : Bytes) → (bytes_eq xs ys ≡ true) ↔ (xs ≡ ys)
unfolding bytes_eq
bytes_eq_iff [] [] = ground arith
bytes_eq_iff [] (y ∷ ys) = ground arith
bytes_eq_iff (x ∷ xs) [] = ground arith
bytes_eq_iff (x ∷ xs) (y ∷ ys) = ground (arith, bytes_eq_iff xs ys)

pub bytes_eq_refl : (xs : Bytes) → bytes_eq xs xs ≡ true
bytes_eq_refl xs = (bytes_eq_iff xs xs).1 refl

-- `std::string(a, strnlen(a, sizeof(a)))`: the bytes before the first NUL of a `char` array.
unfoldable pub c_string : Bytes → Bytes
c_string [] = []
c_string (zero ∷ xs) = []
c_string (suc b ∷ xs) = suc b ∷ c_string xs

-- `s.rfind(prefix, 0) == 0`, and `strncmp(s, prefix, strlen(prefix)) == 0`
unfoldable pub starts_with : Bytes → Bytes → Bool
starts_with [] s = true
starts_with (p ∷ ps) [] = false
starts_with (p ∷ ps) (c ∷ cs) = p == c && starts_with ps cs

-- `s.find(sub) != npos`
unfoldable pub contains : Bytes → Bytes → Bool
unfolding starts_with
contains sub [] = starts_with sub []
contains sub (c ∷ cs) = starts_with sub (c ∷ cs) || contains sub cs

-- `kSet.count(s)` of a `std::set<std::string>` written out in the source
unfoldable pub member : Bytes → List Bytes → Bool
member s [] = false
member s (x ∷ xs) = bytes_eq s x || member s xs

-- `%u`, `%llu` and `std::to_string`: `n + 1` rounds are enough, since each divides by ten.
decimal_digits : ℕ → ℕ → Bytes → Bytes
decimal_digits zero n acc = acc
decimal_digits (suc fuel) n acc =
    let rest = decimal_digits fuel (n / 10) ((48 + n % 10) ∷ acc) in
    if ltb n 10 then (48 + n) ∷ acc else rest

unfoldable pub decimal : ℕ → Bytes
unfolding decimal_digits
decimal n = decimal_digits (n + 1) n []

-- A number below a power of ten has at most that many digits.
length-decimal_digits :
    (fuel n k : ℕ) (acc : Bytes)
    → n < 10 ^ suc k
    → length (decimal_digits fuel n acc) ≤ suc k + length acc
unfolding decimal_digits
length-decimal_digits zero n k acc h = omega arith
length-decimal_digits (suc fuel) n zero acc h =
    let small : ltb n 10 ≡ true = ground arith in rw small (omega arith)
length-decimal_digits (suc fuel) n (suc k) acc h = elim (Bool-cases (ltb n 10)) [
  | inl small ↦ rw small (omega arith)
  | inr large ↦
      let rest =
        length-decimal_digits fuel (n / 10) k ((48 + n % 10) ∷ acc)
          (omega (arith, pow-suc 10 (suc k))) in
      rw large (omega arith)
]

pub length-decimal : (n k : ℕ) → n < 10 ^ suc k → length (decimal n) ≤ suc k
length-decimal n k h = unfold decimal in omega (arith, length-decimal_digits (n + 1) n k [] h)

pub length-c_string : (s : Bytes) → length (c_string s) ≤ length s
unfolding c_string
length-c_string [] = omega arith
length-c_string (zero ∷ s) = omega arith
length-c_string (suc b ∷ s) = omega (arith, length-c_string s)

-- What holds of every digit holds of every character of a printed number.
All-decimal_digits :
    (P : ℕ → Type 0)
    → ((d : ℕ) → d < 10 → P (48 + d))
    → (fuel n : ℕ) (acc : Bytes) → All P acc
    → All P (decimal_digits fuel n acc)
unfolding decimal_digits
All-decimal_digits P digit zero n acc a = a
All-decimal_digits P digit (suc fuel) n acc a = elim (Bool-cases (ltb n 10)) [
  | inl small ↦ rw small (digit n (ground arith), a)
  | inr large ↦ rw large (
      All-decimal_digits P digit fuel (n / 10) ((48 + n % 10) ∷ acc)
        (digit (n % 10) (omega arith), a))
]

pub All-decimal : (P : ℕ → Type 0) → ((d : ℕ) → d < 10 → P (48 + d)) → (n : ℕ) → All P (decimal n)
All-decimal P digit n = unfold decimal in All-decimal_digits P digit (n + 1) n [] tt

-- A reader that takes a digit as `v * 10 + d` reads back what is printed.
fold-decimal_digits :
    {A : Type 0}
    → (f : ℕ → Bytes → A) → ((v d : ℕ) (s : Bytes) → d < 10 → f v ((48 + d) ∷ s) ≡ f (v * 10 + d) s)
    → (fuel n : ℕ) (acc rest : Bytes) → n < fuel
    → f 0 (decimal_digits fuel n acc ++ rest) ≡ f n (acc ++ rest)
unfolding decimal_digits
fold-decimal_digits f step zero n acc rest h = absurd (omega arith)
fold-decimal_digits f step (suc fuel) n acc rest h = elim (Bool-cases (ltb n 10)) [
  | inl small ↦
      let value : 0 * 10 + n ≡ n = omega arith in
      rw small (step 0 n (acc ++ rest) (ground arith) ∙ ap (λ (k : ℕ). f k (acc ++ rest)) value)
  | inr large ↦
      let ten : 10 ≤ n = ground arith in
      let value : n / 10 * 10 + n % 10 ≡ n = omega arith in
      rw large (
        fold-decimal_digits f step fuel (n / 10) ((48 + n % 10) ∷ acc) rest (omega arith)
        ∙ step (n / 10) (n % 10) (acc ++ rest) (omega arith)
        ∙ ap (λ (k : ℕ). f k (acc ++ rest)) value)
]

pub fold-decimal :
    {A : Type 0}
    → (f : ℕ → Bytes → A) → ((v d : ℕ) (s : Bytes) → d < 10 → f v ((48 + d) ∷ s) ≡ f (v * 10 + d) s)
    → (n : ℕ) (rest : Bytes) → f 0 (decimal n ++ rest) ≡ f n rest
fold-decimal f step n rest =
    unfold decimal in fold-decimal_digits f step (n + 1) n [] rest (omega arith)

-- A printed number begins with a digit.
head-decimal_digits :
    (fuel n : ℕ) (acc : Bytes)
    → n < fuel
    → (d : ℕ) × (ds : Bytes) × (d < 10) × (decimal_digits fuel n acc ≡ (48 + d) ∷ ds)
unfolding decimal_digits
head-decimal_digits zero n acc h = absurd (omega arith)
head-decimal_digits (suc fuel) n acc h = elim (Bool-cases (ltb n 10)) [
  | inl small ↦ rw small (n, acc, ground arith, refl)
  | inr large ↦
      let ten : 10 ≤ n = ground arith in
      rw large (head-decimal_digits fuel (n / 10) ((48 + n % 10) ∷ acc) (omega arith))
]

pub head-decimal : (n : ℕ) → (d : ℕ) × (ds : Bytes) × (d < 10) × (decimal n ≡ (48 + d) ∷ ds)
head-decimal n = unfold decimal in head-decimal_digits (n + 1) n [] (omega arith)

-- A C string in a larger array of zeros is read back.
pub c_string-padded : (s : Bytes) (k : ℕ) → c_string (c_string s ++ replicate k 0) ≡ c_string s
unfolding c_string
c_string-padded [] zero = refl
c_string-padded [] (suc k) = refl
c_string-padded (zero ∷ s) zero = refl
c_string-padded (zero ∷ s) (suc k) = refl
c_string-padded (suc b ∷ s) k = rw (c_string-padded s k) refl
