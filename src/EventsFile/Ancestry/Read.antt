-- ===== src/EventsFile/Ancestry/Read.antt =====
-- What `parse_ancestry` of common/events_file.h makes of a printed ancestry.
use pqc_edr.Base.{
  ℕ, zero, suc, ◌+◌, ◌%◌, ◌^◌, ◌≤◌, ◌<◌, ◌≡◌, refl, sym, ap, ap₂, ◌∙◌, false, inl, inr, ◌==◌,
  Option, none, some, List, [], ◌∷◌, ◌++◌, length, length-append, drop, map, replicate, All,
  if◌then◌else◌, arith,
}
use pqc_edr.Base.Words.{Bytes}
use pqc_edr.Base.Text.{text, c_string, decimal, All-decimal, starts_with}
use pqc_edr.Event.{Ancestor, SecurityEvent, ancestors}
use pqc_edr.EventsFile.{Numbers, encode_field, encode_generations}
use pqc_edr.EventsFile.Tokens.{break_at, read_token, skip_while}
use pqc_edr.EventsFile.Parser.{pieces, generation, fill, parse_ancestry, read_options}
use pqc_edr.EventsFile.Fields.{HexLaws, decode-encode_field, plain-AreBytes}
use pqc_edr.EventsFile.Ancestry.{
  DecimalLaws, IsGeneration, IsLineage, one, bars, no_generation, again_one, list_cases,
}
use pqc_edr.EventsFile.Ancestry.Printed.{ancestry_text, ancestry-bare, ancestry-named}
use pqc_edr.EventsFile.Ancestry.Pieces.{
  break_at-stop, digit-NoColon, one-cons, length-bars, pieces-one, vacant-again, drop-replicate,
  map-append, read_ancestry,
}

module _ (lib : Numbers) (hex : HexLaws lib) (numbers : DecimalLaws lib) where
  generation_lem :
      (a : Ancestor)
      → IsGeneration a
      → generation lib (decimal a.pid) (encode_field (c_string a.comm)) ≡ again_one a
  generation_lem a g =
      let pid : lib.strtoul (decimal a.pid) % 2 ^ 32 ≡ a.pid =
        rw (numbers.converts a.pid g.pid) (let l = g.pid in omega arith) in
      rw
        (
          pid,
          decode-encode_field lib hex (c_string a.comm)
              (plain-AreBytes (c_string a.comm) g.comm.plain),
        )
        refl

  fill_step :
      (x : Ancestor) (anc : List Ancestor) (p : Bytes) (ps : List Bytes) (pid comm : Bytes)
      → break_at (λ d. d == 58) p ≡ (pid, 58 ∷ comm)
      → fill lib (x ∷ anc) (p ∷ ps) ≡ generation lib pid comm ∷ fill lib anc ps
  unfolding fill
  fill_step x anc p ps pid comm h = rw h refl

  fill-ones :
      (gens anc : List Ancestor)
      → All IsGeneration gens
      → length gens ≤ length anc
      → fill lib anc (map one gens) ≡ map again_one gens ++ drop (length gens) anc
  fill-ones [] [] h l = unfold fill in refl
  fill-ones [] (x ∷ anc) h l = unfold fill in refl
  fill-ones (a ∷ gens) [] h l = absurd (omega arith)
  fill-ones (a ∷ gens) (x ∷ anc) (g, h) l =
      let colon =
        break_at-stop (λ d. d == 58) (decimal a.pid) (encode_field (c_string a.comm)) 58
          (All-decimal (λ c. (c == 58) ≡ false) digit-NoColon a.pid) refl in
      fill_step x anc (one a) (map one gens) (decimal a.pid) (encode_field (c_string a.comm)) colon
      ∙ ap₂ (λ (y : Ancestor) (ys : List Ancestor). y ∷ ys) (generation_lem a g)
          (fill-ones gens anc h (omega arith))

  -- The generations that fill the empty entries of an event.
  filled :
      (anc : List Ancestor) (k : IsLineage anc)
      → map again_one k.gens ++ drop (length k.gens) (replicate ancestors no_generation)
        ≡ map again_one anc
  filled anc k =
      let size : length k.gens + length k.rest ≡ 4 =
        sym (length-append k.gens k.rest) ∙ ap length (sym k.parts) ∙ k.size in
      let left = drop-replicate (length k.gens) (length k.rest) no_generation in
      let whole : length k.gens + length k.rest ≡ ancestors = size in
      ap (λ (n : ℕ). map again_one k.gens ++ drop (length k.gens) (replicate n no_generation))
        (sym whole)
      ∙ ap (λ (l : List Ancestor). map again_one k.gens ++ l)
          (left ∙ sym (vacant-again k.rest k.vacant))
      ∙ sym (map-append again_one k.gens k.rest)
      ∙ ap (map again_one) (sym k.parts)

  read_rest : (rounds : ℕ) (ev : SecurityEvent) → read_options lib rounds [] ev ≡ ev
  unfolding read_options read_token break_at skip_while
  read_rest zero ev = refl
  read_rest (suc rounds) ev = refl

  options_step :
      (rounds : ℕ) (s body : Bytes) (ev : SecurityEvent)
      → read_token s ≡ some (97 ∷ 110 ∷ 99 ∷ 58 ∷ body, [])
      → read_options lib (suc rounds) s ev
        ≡ record ev { anc = fill lib ev.anc (pieces lib (length body) body) }
  unfolding read_options parse_ancestry starts_with text
  options_step rounds s body ev h =
      let next : Option (Bytes × Bytes) → SecurityEvent = λ r. elim r [
        | none ↦ ev
        | some r ↦
            read_options lib rounds r.1
              (if starts_with (text "anc:") r.0 then parse_ancestry lib r.0 ev else ev)
      ] in
      ap next h
      ∙ read_rest rounds (record ev { anc = fill lib ev.anc (pieces lib (length body) body) })

  bare_options :
      (anc : List Ancestor) (k : IsLineage anc) (ev : SecurityEvent) (rounds : ℕ)
      → k.gens ≡ []
      → ev.anc ≡ replicate ancestors no_generation
      → read_options lib rounds [] ev ≡ record ev { anc = map again_one anc }
  bare_options anc k ev rounds none_known blank =
      let same : ev.anc ≡ map again_one anc =
        blank
        ∙ ap
            (λ (g : List Ancestor).
              map again_one g ++ drop (length g) (replicate ancestors no_generation))
            (sym none_known)
        ∙ filled anc k in
      read_rest rounds ev ∙ ap (λ (l : List Ancestor). record ev { anc = l }) same

  named_options :
      (anc : List Ancestor) (k : IsLineage anc) (a : Ancestor) (gens : List Ancestor)
      (ev : SecurityEvent) (rounds : ℕ)
      → k.gens ≡ a ∷ gens
      → ev.anc ≡ replicate ancestors no_generation
      → read_options lib (suc rounds) (ancestry_text a gens) ev
        ≡ record ev { anc = map again_one anc }
  named_options anc k a gens ev rounds known blank =
      let body = one a ++ bars gens in
      let named : All IsGeneration (a ∷ gens) = rw known at k.named in
      let size : length k.gens ≤ ancestors =
        omega (arith, sym (length-append k.gens k.rest) ∙ ap length (sym k.parts) ∙ k.size) in
      let size' : length (a ∷ gens) ≤ ancestors = rw known at size in
      let blanks = replicate ancestors no_generation in
      let token = read_ancestry a gens named in
      let enough : length gens < length body =
        let (d, t, e) = one-cons a in
        omega (arith, length-bars gens, length-append (one a) (bars gens), ap length e) in
      let got : fill lib ev.anc (pieces lib (length body) body) ≡ map again_one anc =
        ap₂ (λ (x : List Ancestor) (y : List Bytes). fill lib x y) blank
          (pieces-one lib a gens (length body) named enough)
        ∙ fill-ones (a ∷ gens) blanks named size'
        ∙ ap (λ (g : List Ancestor). map again_one g ++ drop (length g) blanks) (sym known)
        ∙ filled anc k in
      options_step rounds (ancestry_text a gens) body ev token
      ∙ ap (λ (l : List Ancestor). record ev { anc = l }) got

  -- The options of a line are its ancestry.
  pub options-again :
      (anc : List Ancestor) (k : IsLineage anc) (ev : SecurityEvent)
      → ev.anc ≡ replicate ancestors no_generation
      → read_options lib (length (encode_generations [] anc)) (encode_generations [] anc) ev
        ≡ record ev { anc = map again_one anc }
  options-again anc k ev blank = elim (list_cases k.gens) [
    | inl bare ↦ rw (ancestry-bare anc k bare) (bare_options anc k ev 0 bare blank)
    | inr (a, gens, known) ↦ rw (ancestry-named anc k a gens known) (
        named_options anc k a gens ev (length (97 ∷ 110 ∷ 99 ∷ 58 ∷ (one a ++ bars gens))) known
          blank)
  ]
