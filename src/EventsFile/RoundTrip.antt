-- ===== src/EventsFile/RoundTrip.antt =====
-- The words of a printed line, read by the `parse` of common/events_file.h up to the fields of its kind.
use pqc_edr.Base.{ℕ, ◌^◌, ◌<◌, ◌≡◌, refl, ap, ◌∙◌, true, some, ◌==◌, [], ◌∷◌, ◌++◌, All}
use pqc_edr.Base.Words.{Bytes}
use pqc_edr.Base.Text.{decimal}
use pqc_edr.Event.{SecurityEvent}
use pqc_edr.EventsFile.{Numbers, encode_field}
use pqc_edr.EventsFile.Tokens.{is_space, break_at, read_token}
use pqc_edr.EventsFile.Parser.{Line, decode_field, read_common, event_line, line_of, parse_line}
use pqc_edr.EventsFile.Fields.{
  HexLaws, IsTokenChar, IsPlain, IsEnd, read_token_lem, field_roundtrip,
}
use pqc_edr.EventsFile.Words.{
  read_token-lead, space_ends, break_at-none, words, IsLineChar, line-NoHash,
}
use pqc_edr.EventsFile.Ancestry.{DecimalLaws}

pub one_space : All (λ c. is_space c ≡ true) (32 ∷ [])
unfolding is_space
one_space = (refl, tt)

module _ (lib : Numbers) (hex : HexLaws lib) (numbers : DecimalLaws lib) where
  lead-spaces : (lead : Bytes) → All (λ c. c ≡ 32) lead → All (λ c. is_space c ≡ true) (32 ∷ lead)
  unfolding is_space
  lead-spaces [] h = (refl, tt)
  lead-spaces (c ∷ lead) (e, h) = (refl, (rw e refl, (lead-spaces lead h).1))

  read_common_lem :
      (lead : Bytes) (pid ppid c : ℕ) (cs rest : Bytes)
      → All (λ c. c ≡ 32) lead
      → pid < 2 ^ 32
      → ppid < 2 ^ 32
      → All IsPlain (c ∷ cs)
      → IsEnd rest
      → (token : Bytes) × (read_common lib (
            32
            ∷ (lead
                ++ (decimal pid
                    ++ (32 ∷ (decimal ppid ++ (32 ∷ (encode_field (c ∷ cs) ++ rest)))))))
          ≡ some (pid, ppid, token, rest))
        × (decode_field lib token ≡ c ∷ cs)
  unfolding read_common
  read_common_lem lead pid ppid c cs rest hl hp hq h e =
      let after = 32 ∷ (encode_field (c ∷ cs) ++ rest) in
      let first =
        numbers.reads 32 pid (32 ∷ lead) (32 ∷ (decimal ppid ++ after)) hp (lead-spaces lead hl)
          (space_ends (decimal ppid ++ after)) in
      let second =
        numbers.reads 32 ppid (32 ∷ []) after hq one_space
          (space_ends (encode_field (c ∷ cs) ++ rest)) in
      let (token, third, decoded) = field_roundtrip lib hex c cs rest h e in
      (
        token,
        rw (first, second, read_token-lead (encode_field (c ∷ cs) ++ rest), third) refl,
        decoded,
      )

  pub parse_uncommented :
      (w : Bytes)
      → break_at (λ d. d == 35) w ≡ (w, [])
      → parse_line lib w ≡ line_of lib [] (read_token w)
  unfolding parse_line
  parse_uncommented w h = rw h refl

  -- A line of words is read as its kind says.
  pub parse_words :
      (k : ℕ) (ks lead : Bytes) (ev : SecurityEvent) (c : ℕ) (cs tail : Bytes) (result : Line)
      → All IsTokenChar (k ∷ ks)
      → All (λ c. c ≡ 32) lead
      → ev.pid < 2 ^ 32
      → ev.ppid < 2 ^ 32
      → All IsPlain (c ∷ cs)
      → All IsLineChar (words (k ∷ ks) lead ev (c ∷ cs) tail)
      → ((rest : Bytes)
          → line_of lib [] (some (k ∷ ks, rest))
            ≡ event_line lib [] (k ∷ ks) (read_common lib rest))
      → ((token : Bytes)
          → decode_field lib token ≡ c ∷ cs
          → event_line lib [] (k ∷ ks) (some (ev.pid, ev.ppid, token, 32 ∷ tail)) ≡ result)
      → parse_line lib (words (k ∷ ks) lead ev (c ∷ cs) tail) ≡ result
  parse_words k ks lead ev c cs tail result hk hl hp hq hc line start fields =
      let w = words (k ∷ ks) lead ev (c ∷ cs) tail in
      let (token, common, decoded) =
        read_common_lem lead ev.pid ev.ppid c cs (32 ∷ tail) hl hp hq hc (space_ends tail) in
      let whole = break_at-none (λ d. d == 35) w (line-NoHash w line) in
      let after =
        lead
        ++ (decimal ev.pid
            ++ (32 ∷ (decimal ev.ppid ++ (32 ∷ (encode_field (c ∷ cs) ++ (32 ∷ tail)))))) in
      parse_uncommented w whole
      ∙ ap (line_of lib []) (read_token_lem k ks (32 ∷ after) hk (space_ends after))
      ∙ start (32 ∷ after)
      ∙ ap (event_line lib [] (k ∷ ks)) common
      ∙ fields token decoded
