-- ===== src/EventsFile/Ancestry/Printed.antt =====
-- What `encode_ancestry` of common/events_file.h prints.
use pqc_edr.Base.{
  ◌≡◌, ◌≢◌, refl, sym, ap, ◌∙◌, Bool, false, inl, inr, List, [], ◌∷◌, ◌++◌, is_empty, All,
  All-append, append-nil, append_assoc, if◌then◌else◌, arith,
}
use pqc_edr.Base.Words.{Bytes}
use pqc_edr.Base.Text.{text, c_string, decimal}
use pqc_edr.Event.{Ancestor}
use pqc_edr.EventsFile.{or_question, is_blank, encode_field, encode_generations}
use pqc_edr.EventsFile.Tokens.{is_space}
use pqc_edr.EventsFile.Fields.{IsTokenChar, IsEnd, encode_field-AreTokenChars}
use pqc_edr.EventsFile.Words.{IsLineChar, token-line, decimal-AreTokenChars, space_ends}
use pqc_edr.EventsFile.Ancestry.{
  IsGeneration, IsVacant, IsLineage, one, bars, or_question-kept, list_cases,
}

ne-is_empty : (s : Bytes) → s ≢ [] → is_empty s ≡ false
ne-is_empty [] h = absurd (h refl)
ne-is_empty (c ∷ s) h = refl

append-is_empty : (s t : Bytes) → is_empty s ≡ false → is_empty (s ++ t) ≡ false
append-is_empty [] t h = cc
append-is_empty (c ∷ s) t h = refl

vacant-nothing :
    (o : Bytes) (rest : List Ancestor) → All IsVacant rest → encode_generations o rest ≡ o
unfolding encode_generations
vacant-nothing o [] h = refl
vacant-nothing o (a ∷ rest) ((p, c), h) = rw (p, c) (vacant-nothing o rest h)

not_blank : (a : Ancestor) → IsGeneration a → is_blank a ≡ false
not_blank a g = let e = ne-is_empty (c_string a.comm) g.comm.some_text in ground (arith, e)

-- One round of the loop, given whether the entry is empty.
abbrev extended : Bytes → Ancestor → Bool → Bytes
extended o a empty =
    let mark = if is_empty o then text " anc:" else text "|" in
    let shown = decimal a.pid ++ (text ":" ++ encode_field (or_question (c_string a.comm))) in
    if empty then o else o ++ (mark ++ shown)

round :
    (o : Bytes) (a : Ancestor) (anc : List Ancestor)
    → encode_generations o (a ∷ anc) ≡ encode_generations (extended o a (is_blank a)) anc
unfolding encode_generations
round o a anc = refl

printed_one :
    (o : Bytes) (a : Ancestor) (anc : List Ancestor)
    → IsGeneration a
    → encode_generations o (a ∷ anc)
      ≡ encode_generations (o ++ ((if is_empty o then text " anc:" else text "|") ++ one a)) anc
unfolding text
printed_one o a anc g =
    round o a anc
    ∙ ap (λ (b : Bool). encode_generations (extended o a b) anc) (not_blank a g)
    ∙ rw (or_question-kept (c_string a.comm) g.comm.some_text) refl

printed_bars :
    (o : Bytes) (gens rest : List Ancestor)
    → is_empty o ≡ false
    → All IsGeneration gens
    → All IsVacant rest
    → encode_generations o (gens ++ rest) ≡ o ++ bars gens
unfolding text
printed_bars o [] rest some_o h v = vacant-nothing o rest v ∙ sym (append-nil o)
printed_bars o (a ∷ gens) rest some_o (g, h) v =
    printed_one o a (gens ++ rest) g
    ∙ rw some_o (
        printed_bars (o ++ (124 ∷ one a)) gens rest (append-is_empty o (124 ∷ one a) some_o) h v
        ∙ append_assoc o (124 ∷ one a) (bars gens))

-- The text of an ancestry that has a generation.
printed_ancestry :
    (a : Ancestor) (gens rest : List Ancestor)
    → All IsGeneration (a ∷ gens)
    → All IsVacant rest
    → encode_generations [] (a ∷ (gens ++ rest)) ≡ 32 ∷ 97 ∷ 110 ∷ 99 ∷ 58 ∷ (one a ++ bars gens)
unfolding text
printed_ancestry a gens rest (g, h) v =
    printed_one [] a (gens ++ rest) g
    ∙ printed_bars (32 ∷ 97 ∷ 110 ∷ 99 ∷ 58 ∷ one a) gens rest refl h v

one-AreTokenChars : (a : Ancestor) → IsGeneration a → All IsTokenChar (one a)
unfolding is_space
one-AreTokenChars a g =
    All-append IsTokenChar (decimal a.pid) (58 ∷ encode_field (c_string a.comm))
      (decimal-AreTokenChars a.pid)
      ((refl, refl), encode_field-AreTokenChars (c_string a.comm) g.comm.plain)

bars-AreTokenChars : (gens : List Ancestor) → All IsGeneration gens → All IsTokenChar (bars gens)
unfolding is_space
bars-AreTokenChars [] h = tt
bars-AreTokenChars (a ∷ gens) (g, h) = (
  (refl, refl),
  All-append IsTokenChar (one a) (bars gens) (one-AreTokenChars a g) (bars-AreTokenChars gens h),
)

-- What is printed of a generation and those after it, by its characters.
abbrev pub ancestry_text : Ancestor → List Ancestor → Bytes
ancestry_text a gens = 32 ∷ 97 ∷ 110 ∷ 99 ∷ 58 ∷ (one a ++ bars gens)

pub ancestry-AreTokenChars :
    (a : Ancestor) (gens : List Ancestor)
    → All IsGeneration (a ∷ gens)
    → All IsTokenChar (97 ∷ 110 ∷ 99 ∷ 58 ∷ (one a ++ bars gens))
unfolding is_space
ancestry-AreTokenChars a gens (g, h) = (
  (refl, refl),
  (
    (refl, refl),
    (
      (refl, refl),
      (
        (refl, refl),
        All-append IsTokenChar (one a) (bars gens) (one-AreTokenChars a g)
            (bars-AreTokenChars gens h),
      ),
    ),
  ),
)

pub ancestry-bare :
    (anc : List Ancestor) (k : IsLineage anc) → k.gens ≡ [] → encode_generations [] anc ≡ []
ancestry-bare anc k bare =
    ap (encode_generations []) (k.parts ∙ ap (λ (g : List Ancestor). g ++ k.rest) bare)
    ∙ vacant-nothing [] k.rest k.vacant

pub ancestry-named :
    (anc : List Ancestor) (k : IsLineage anc) (a : Ancestor) (gens : List Ancestor)
    → k.gens ≡ a ∷ gens
    → encode_generations [] anc ≡ ancestry_text a gens
ancestry-named anc k a gens known =
    ap (encode_generations []) (k.parts ∙ ap (λ (g : List Ancestor). g ++ k.rest) known)
    ∙ printed_ancestry a gens k.rest (rw known at k.named) k.vacant

-- The printed ancestry ends the token before it, and its characters are those of a line.
pub ancestry-IsEnd :
    (anc : List Ancestor)
    → IsLineage anc
    → IsEnd (encode_generations [] anc) × All IsLineChar (encode_generations [] anc)
ancestry-IsEnd anc k = elim (list_cases k.gens) [
  | inl bare ↦ rw (ancestry-bare anc k bare) (inl refl, tt)
  | inr (a, gens, known) ↦
      let chars = ancestry-AreTokenChars a gens (rw known at k.named) in
      rw (ancestry-named anc k a gens known) (
        space_ends (97 ∷ 110 ∷ 99 ∷ 58 ∷ (one a ++ bars gens)),
        (inl refl, token-line (97 ∷ 110 ∷ 99 ∷ 58 ∷ (one a ++ bars gens)) chars),
      )
]
