-- ===== src/EventsFile/Words.antt =====
-- The words of a printed event, as common/events_file.h prints them and reads them back.
use pqc_edr.Base.{
  ℕ, ◌+◌, ◌-◌, ◌<◌, ◌≡◌, refl, sym, ap, ◌∙◌, Bool, false, ◌==◌, [], ◌∷◌, ◌++◌, ◌⊎◌, inl, inr,
  length, take_all, All, All-append, append-nil, arith,
}
use pqc_edr.Base.Words.{Bytes}
use pqc_edr.Base.Text.{c_string, decimal, All-decimal, c_string-padded}
use pqc_edr.Event.{SecurityEvent}
use pqc_edr.Agent.Synthetic.{into_array}
use pqc_edr.EventsFile.{encode_field}
use pqc_edr.EventsFile.Tokens.{is_space, break_at, skip_while, read_token}
use pqc_edr.EventsFile.Fields.{IsTokenChar, IsPlain, IsEnd, encode_field-AreTokenChars}

into_array-c_string :
    (size : ℕ) (s : Bytes)
    → length (c_string s) < size
    → c_string (into_array size (c_string s)) ≡ c_string s
into_array-c_string size s l =
    rw (take_all (size - 1) (c_string s) (omega arith))
      (c_string-padded s (size - length (c_string s)))

c_string-again : (s : Bytes) → c_string (c_string s) ≡ c_string s
c_string-again s = let p = c_string-padded s 0 in rw append-nil at p

-- A `char` array that is copied through its text keeps the text, where it has room for a NUL.
pub refilled :
    (size : ℕ) (s t : Bytes)
    → c_string s ≡ t
    → length t < size
    → c_string (into_array size (c_string t)) ≡ c_string s
refilled size s t h l =
    let same : c_string t ≡ t = ap c_string (sym h) ∙ c_string-again s ∙ h in
    into_array-c_string size t (rw same l) ∙ same ∙ sym h

pub read_token-lead : (s : Bytes) → read_token (32 ∷ s) ≡ read_token s
unfolding read_token skip_while is_space
read_token-lead s = refl

pub space_ends : (s : Bytes) → IsEnd (32 ∷ s)
unfolding is_space
space_ends s = inr (32, s, refl, refl)

-- A line without '#' has no comment.
pub break_at-none :
    (stop : ℕ → Bool) (s : Bytes) → All (λ c. stop c ≡ false) s → break_at stop s ≡ (s, [])
unfolding break_at
break_at-none stop [] h = refl
break_at-none stop (c ∷ s) (p, h) = rw (p, break_at-none stop s h) refl

-- A recorded line by its words: the kind, the spaces that `format_line` puts behind it besides one, the
-- fields that all kinds have, and the others.
abbrev pub words : Bytes → Bytes → SecurityEvent → Bytes → Bytes → Bytes
words kind lead ev comm tail =
    kind
    ++ (32
        ∷ (lead
            ++ (decimal ev.pid
                ++ (32 ∷ (decimal ev.ppid ++ (32 ∷ (encode_field comm ++ (32 ∷ tail))))))))

abbrev pub NoHash : ℕ → Type 0
NoHash c = (c == 35) ≡ false

abbrev pub NoNewline : ℕ → Type 0
NoNewline c = (c == 10) ≡ false

-- A character of a printed line: a space, or one of a token.
abbrev pub IsLineChar : ℕ → Type 0
IsLineChar c = (c ≡ 32) ⊎ IsTokenChar c

digit-IsTokenChar : (d : ℕ) → d < 10 → IsTokenChar (48 + d)
unfolding is_space
digit-IsTokenChar d l = ground arith

pub All-map : (P Q : ℕ → Type 0) → ((c : ℕ) → P c → Q c) → (s : Bytes) → All P s → All Q s
All-map P Q f [] h = tt
All-map P Q f (c ∷ s) (p, h) = (f c p, All-map P Q f s h)

pub decimal-AreTokenChars : (n : ℕ) → All IsTokenChar (decimal n)
decimal-AreTokenChars = All-decimal IsTokenChar digit-IsTokenChar

-- A token is a part of a line.
pub token-line : (s : Bytes) → All IsTokenChar s → All IsLineChar s
token-line = All-map IsTokenChar IsLineChar (λ c t. inr t)

pub spaced : (s t : Bytes) → All IsTokenChar s → All IsLineChar t → All IsLineChar (s ++ (32 ∷ t))
spaced s t h l = All-append IsLineChar s (32 ∷ t) (token-line s h) (inl refl, l)

pub line-NoHash : (s : Bytes) → All IsLineChar s → All NoHash s
line-NoHash = All-map IsLineChar NoHash (λ c l. elim l [ inl e ↦ rw e refl | inr t ↦ t.1 ])

token-NoNewline : (c : ℕ) → IsTokenChar c → NoNewline c
unfolding is_space
token-NoNewline c t = ground arith

pub line-NoNewline : (s : Bytes) → All IsLineChar s → All NoNewline s
line-NoNewline =
    All-map IsLineChar NoNewline (λ c l. elim l [ inl e ↦ rw e refl | inr t ↦ token-NoNewline c t ])

pub words-line :
    (kind lead : Bytes) (ev : SecurityEvent) (comm tail : Bytes)
    → All IsTokenChar kind
    → All (λ c. c ≡ 32) lead
    → All IsPlain comm
    → All IsLineChar tail
    → All IsLineChar (words kind lead ev comm tail)
words-line kind lead ev comm tail hk hl hc ht =
    let name = spaced (encode_field comm) tail (encode_field-AreTokenChars comm hc) ht in
    let after = encode_field comm ++ (32 ∷ tail) in
    let ppid = spaced (decimal ev.ppid) after (decimal-AreTokenChars ev.ppid) name in
    let pids = decimal ev.ppid ++ (32 ∷ after) in
    let pid = spaced (decimal ev.pid) pids (decimal-AreTokenChars ev.pid) ppid in
    let numbers = decimal ev.pid ++ (32 ∷ pids) in
    let blanks = All-map (λ c. c ≡ 32) IsLineChar (λ c e. inl e) lead hl in
    spaced kind (lead ++ numbers) hk (All-append IsLineChar lead numbers blanks pid)

pub decimal-NoHash : (n : ℕ) → All NoHash (decimal n)
decimal-NoHash n = line-NoHash (decimal n) (token-line (decimal n) (decimal-AreTokenChars n))

pub decimal-NoNewline : (n : ℕ) → All NoNewline (decimal n)
decimal-NoNewline n = line-NoNewline (decimal n) (token-line (decimal n) (decimal-AreTokenChars n))
