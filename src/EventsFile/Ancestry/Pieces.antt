-- ===== src/EventsFile/Ancestry/Pieces.antt =====
-- The pieces that `parse_ancestry` of common/events_file.h cuts a printed ancestry into.
use pqc_edr.Base.{
  ℕ, zero, suc, ◌+◌, ◌/◌, ◌%◌, ◌≤◌, ◌<◌, ◌≡◌, refl, ap, ap₂, ◌∙◌, Bool, true, false, Bool-cases,
  inl, inr, ◌==◌, some, List, [], ◌∷◌, ◌++◌, length, length-append, drop, map, replicate, All,
  All-append, append-nil, arith,
}
use pqc_edr.Base.Words.{Bytes}
use pqc_edr.Base.Text.{c_string, decimal, All-decimal, head-decimal}
use pqc_edr.Event.{Ancestor}
use pqc_edr.EventsFile.{Numbers, encode_field, is_escaped, hex_digit}
use pqc_edr.EventsFile.Tokens.{break_at, read_token}
use pqc_edr.EventsFile.Parser.{pieces}
use pqc_edr.EventsFile.Fields.{IsPlain, read_token_lem}
use pqc_edr.EventsFile.Words.{read_token-lead, break_at-none}
use pqc_edr.EventsFile.Ancestry.{NoBar, IsGeneration, IsVacant, one, bars, no_generation, again_one}
use pqc_edr.EventsFile.Ancestry.Printed.{ancestry_text, ancestry-AreTokenChars}

-- Reading: a text up to the first character of a kind.
pub break_at-stop :
    (stop : ℕ → Bool) (t rest : Bytes) (c : ℕ)
    → All (λ d. stop d ≡ false) t
    → stop c ≡ true
    → break_at stop (t ++ (c ∷ rest)) ≡ (t, c ∷ rest)
unfolding break_at
break_at-stop stop [] rest c h e = rw e refl
break_at-stop stop (d ∷ t) rest c (p, h) e = rw (p, break_at-stop stop t rest c h e) refl

hex-NoBar : (d : ℕ) → d < 16 → NoBar (hex_digit d)
unfolding hex_digit
hex-NoBar d l = ground arith

encoded-NoBar : (s : Bytes) → All IsPlain s → All NoBar s → All NoBar (encode_field s)
unfolding encode_field
encoded-NoBar [] p h = tt
encoded-NoBar (c ∷ s) (p, ps) (n, ns) = elim (Bool-cases (is_escaped c)) [
  | inl e ↦ rw e (
    refl,
    (
      hex-NoBar (c / 16) (let b = p.0 in omega arith),
      (hex-NoBar (c % 16) (omega arith), encoded-NoBar s ps ns),
    ),
  )
  | inr e ↦ rw e (n, encoded-NoBar s ps ns)
]

digit-NoBar : (d : ℕ) → d < 10 → NoBar (48 + d)
digit-NoBar d l = ground arith

pub digit-NoColon : (d : ℕ) → d < 10 → ((48 + d) == 58) ≡ false
digit-NoColon d l = ground arith

one-NoBar : (a : Ancestor) → IsGeneration a → All NoBar (one a)
one-NoBar a g =
    All-append NoBar (decimal a.pid) (58 ∷ encode_field (c_string a.comm))
      (All-decimal NoBar digit-NoBar a.pid)
      (refl, encoded-NoBar (c_string a.comm) g.comm.plain g.no_bar)

cut_one :
    (a : Ancestor) (gens : List Ancestor)
    → IsGeneration a
    → break_at (λ d. d == 124) (one a ++ bars gens) ≡ (one a, bars gens)
cut_one a [] g = rw (append-nil (one a)) (break_at-none (λ d. d == 124) (one a) (one-NoBar a g))
cut_one a (b ∷ gens) g =
    break_at-stop (λ d. d == 124) (one a) (one b ++ bars gens) 124 (one-NoBar a g) refl

pub length-bars : (gens : List Ancestor) → length gens ≤ length (bars gens)
length-bars [] = omega arith
length-bars (a ∷ gens) = omega (arith, length-bars gens, length-append (one a) (bars gens))

pub one-cons : (a : Ancestor) → (d : ℕ) × (t : Bytes) × (one a ≡ d ∷ t)
one-cons a =
    let (d, ds, l, e) = head-decimal a.pid in
    (48 + d, ds ++ (58 ∷ encode_field (c_string a.comm)), rw e refl)

pub read_ancestry :
    (a : Ancestor) (gens : List Ancestor)
    → All IsGeneration (a ∷ gens)
    → read_token (ancestry_text a gens) ≡ some (97 ∷ 110 ∷ 99 ∷ 58 ∷ (one a ++ bars gens), [])
read_ancestry a gens h =
    let body = one a ++ bars gens in
    let got =
      read_token_lem 97 (110 ∷ 99 ∷ 58 ∷ body) [] (ancestry-AreTokenChars a gens h) (inl refl) in
    read_token-lead (97 ∷ 110 ∷ 99 ∷ 58 ∷ body) ∙ (rw append-nil at got)

pub drop-replicate : (m n : ℕ) (a : Ancestor) → drop m (replicate (m + n) a) ≡ replicate n a
drop-replicate zero n a = ap (λ (k : ℕ). replicate k a) (omega arith)
drop-replicate (suc m) n a =
    let e : suc m + n ≡ suc (m + n) = omega arith in rw e (drop-replicate m n a)

pub map-append :
    (f : Ancestor → Ancestor) (xs ys : List Ancestor) → map f (xs ++ ys) ≡ map f xs ++ map f ys
map-append f [] ys = refl
map-append f (x ∷ xs) ys = ap (λ (l : List Ancestor). f x ∷ l) (map-append f xs ys)

pub vacant-again :
    (rest : List Ancestor)
    → All IsVacant rest
    → map again_one rest ≡ replicate (length rest) no_generation
vacant-again [] h = refl
vacant-again (a ∷ rest) ((p, c), h) =
    ap₂ (λ (x : Ancestor) (xs : List Ancestor). x ∷ xs) (rw (p, c) (unfold c_string in refl))
      (vacant-again rest h)

module _ (lib : Numbers) where
  pieces_step :
      (rounds : ℕ) (body : Bytes) (d : ℕ) (t : Bytes)
      → body ≡ d ∷ t
      → (r : Bytes × Bytes) → break_at (λ c. c == 124) body ≡ r
      → pieces lib (suc rounds) body ≡ r.0 ∷ pieces lib rounds (drop 1 r.1)
  unfolding pieces
  pieces_step rounds body d t e r h = rw (← h, e) refl

  pieces-nil : (rounds : ℕ) → pieces lib rounds [] ≡ []
  unfolding pieces
  pieces-nil zero = refl
  pieces-nil (suc rounds) = refl

  pieces-cut :
      (a : Ancestor) (gens : List Ancestor) (rounds : ℕ)
      → IsGeneration a
      → pieces lib (suc rounds) (one a ++ bars gens)
        ≡ one a ∷ pieces lib rounds (drop 1 (bars gens))
  pieces-cut a gens rounds g =
      let (d, t, e) = one-cons a in
      let starts : one a ++ bars gens ≡ d ∷ (t ++ bars gens) = rw e refl in
      pieces_step rounds (one a ++ bars gens) d (t ++ bars gens) starts (one a, bars gens)
        (cut_one a gens g)

  pub pieces-one :
      (a : Ancestor) (gens : List Ancestor) (rounds : ℕ)
      → All IsGeneration (a ∷ gens)
      → length gens < rounds
      → pieces lib rounds (one a ++ bars gens) ≡ map one (a ∷ gens)
  pieces-one a gens zero h l = absurd (omega arith)
  pieces-one a [] (suc rounds) (g, h) l =
      pieces-cut a [] rounds g ∙ ap (λ (ps : List Bytes). one a ∷ ps) (pieces-nil rounds)
  pieces-one a (b ∷ gens) (suc rounds) (g, h) l =
      pieces-cut a (b ∷ gens) rounds g
      ∙ ap (λ (ps : List Bytes). one a ∷ ps) (pieces-one b gens rounds h (omega arith))
