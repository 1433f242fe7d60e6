-- ===== src/EventsFile/Ancestry.antt =====
-- The ancestry of a recorded line in common/events_file.h: which `anc[]` a recording keeps, and what it is
-- read as.
pub mod Printed
pub mod Pieces
pub mod Read
use pqc_edr.Base.{
  ℕ, zero, suc, ◌+◌, ◌/◌, ◌%◌, ◌^◌, ◌≤◌, ◌<◌, ◌≡◌, ◌≢◌, refl, sym, ap, ap₂, ◌∙◌, Bool, true, false,
  Bool-cases, inl, inr, ◌⊎◌, ◌==◌, Option, none, some, List, [], ◌∷◌, ◌++◌, length, length-append,
  drop, map, is_empty, replicate, All, All-append, append-nil, append_assoc, if◌then◌else◌, arith,
}
use pqc_edr.Base.Words.{Bytes}
use pqc_edr.Base.Text.{text, c_string, decimal, All-decimal, head-decimal, starts_with}
use pqc_edr.Event.{Ancestor, SecurityEvent, comm_len, ancestors}
use pqc_edr.Agent.Synthetic.{into_array}
use pqc_edr.EventsFile.{
  Numbers, or_question, is_blank, encode_field, encode_generations, is_escaped, hex_digit,
}
use pqc_edr.EventsFile.Tokens.{is_space, break_at, read_token, skip_while}
use pqc_edr.EventsFile.Parser.{pieces, generation, fill, parse_ancestry, read_options}
use pqc_edr.EventsFile.Fields.{
  HexLaws, IsPlain, IsTokenChar, IsEnd, encode_field-AreTokenChars, decode-encode_field,
  plain-AreBytes, read_token_lem,
}
use pqc_edr.EventsFile.Words.{
  IsLineChar, token-line, decimal-AreTokenChars, space_ends, read_token-lead, break_at-none,
}

-- What `>>` into an integer documents: it skips white space, reads the digits of a number that fits, and
-- stops at white space or at the end. `strtoul` reads such digits, `inet_ntop` prints at most 15
-- characters, and `inet_pton` reads what it prints.
pub record DecimalLaws (lib : Numbers) : Type 0 where
  pub reads :
      (bits n : ℕ) (lead rest : Bytes)
      → n < 2 ^ bits
      → All (λ c. is_space c ≡ true) lead
      → IsEnd rest
      → lib.read_unsigned bits (lead ++ (decimal n ++ rest)) ≡ some (n, rest)
  pub reads_long :
      (n : ℕ) (lead : Bytes)
      → n < 2 ^ 63
      → All (λ c. is_space c ≡ true) lead
      → lib.read_long (lead ++ decimal n) ≡ some (some n, [])
  pub converts : (n : ℕ) → n < 2 ^ 32 → lib.strtoul (decimal n) ≡ n
  pub prints_address :
      (addr : ℕ)
      → addr < 2 ^ 32
      → (c : ℕ) × (s : Bytes) × (lib.inet_ntop addr ≡ c ∷ s)
        × All IsTokenChar (c ∷ s)
        × (length (c ∷ s) ≤ 15)
  pub reads_address : (addr : ℕ) → addr < 2 ^ 32 → lib.inet_pton (lib.inet_ntop addr) ≡ some addr

-- A text that a recording keeps: not empty, with room for a NUL, and without vertical tab and form feed.
pub record IsKept (size : ℕ) (s : Bytes) : Type 0 where
  pub some_text : s ≢ []
  pub plain : All IsPlain s
  pub fits : length s < size

abbrev pub NoBar : ℕ → Type 0
NoBar c = (c == 124) ≡ false

-- An ancestor that a recording keeps: a process with a name that has no bar.
pub record IsGeneration (a : Ancestor) : Type 0 where
  pub pid : a.pid < 2 ^ 32
  pub comm : IsKept comm_len (c_string a.comm)
  pub no_bar : All NoBar (c_string a.comm)

-- An entry that the kernel has not filled.
abbrev pub IsVacant : Ancestor → Type 0
IsVacant a = (a.pid ≡ 0) × (c_string a.comm ≡ [])

-- `anc[]` as the kernel fills it, from the parent on: ancestors, then what is left.
pub record IsLineage (anc : List Ancestor) : Type 0 where
  pub gens : List Ancestor
  pub rest : List Ancestor
  pub parts : anc ≡ gens ++ rest
  pub size : length anc ≡ ancestors
  pub named : All IsGeneration gens
  pub vacant : All IsVacant rest

abbrev pub one : Ancestor → Bytes
one a = decimal a.pid ++ (58 ∷ encode_field (c_string a.comm))

abbrev pub bars : List Ancestor → Bytes
bars [] = []
bars (a ∷ gens) = 124 ∷ (one a ++ bars gens)

pub or_question-kept : (s : Bytes) → s ≢ [] → or_question s ≡ s
or_question-kept [] h = absurd (h refl)
or_question-kept (c ∷ s) h = refl

pub list_cases :
    (l : List Ancestor) → (l ≡ []) ⊎ ((a : Ancestor) × (rest : List Ancestor) × (l ≡ a ∷ rest))
list_cases [] = inl refl
list_cases (a ∷ rest) = inr (a, rest, refl)

-- What `parse_ancestry` makes of an ancestor.
abbrev pub again_one : Ancestor → Ancestor
again_one a = record { pid = a.pid; comm = into_array comm_len (c_string (c_string a.comm)) }

-- An entry of a new event.
abbrev pub no_generation : Ancestor
no_generation = record { pid = 0; comm = replicate comm_len 0 }
