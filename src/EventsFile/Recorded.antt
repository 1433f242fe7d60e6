-- ===== src/EventsFile/Recorded.antt =====
-- The lines that a recording has, as `format_line` of common/events_file.h prints them and its `parse` reads
-- them.
use pqc_edr.Base.{
  ℕ, ◌^◌, ◌<◌, ◌≡◌, ◌≢◌, refl, sym, ap, ◌∙◌, inl, inr, ◌==◌, some, [], ◌∷◌, ◌++◌, All,
}
use pqc_edr.Base.Words.{Bytes}
use pqc_edr.Base.Text.{text, c_string, decimal, bytes_eq}
use pqc_edr.Event.{SecurityEvent}
use pqc_edr.EventsFile.{Numbers, format_line}
use pqc_edr.EventsFile.Tokens.{is_space, read_token}
use pqc_edr.EventsFile.Parser.{parsed, event, line_of}
use pqc_edr.EventsFile.Fields.{HexLaws, read_token_lem}
use pqc_edr.EventsFile.Words.{words, IsLineChar, space_ends}
use pqc_edr.EventsFile.Ancestry.{DecimalLaws}
use pqc_edr.EventsFile.Tokens.{break_at}
use pqc_edr.EventsFile.Parser.{delay, parse_line, delay_of, parse_delay}
use pqc_edr.EventsFile.Words.{
  decimal-NoNewline, decimal-NoHash, break_at-none, NoNewline, line-NoNewline, words-line,
}
use pqc_edr.EventsFile.RoundTrip.{parse_uncommented, parse_words}
use pqc_edr.EventsFile.Recordable.{IsRecordable, again, HasLine}
use pqc_edr.EventsFile.Lines.{execve-HasLine, connect-HasLine, fileopen-HasLine}

module _ (lib : Numbers) (hex : HexLaws lib) (numbers : DecimalLaws lib) where
  has_line : (ev : SecurityEvent) → IsRecordable ev → HasLine lib ev
  has_line ev r = elim r.kind [
    | inl (kind, k) ↦ execve-HasLine lib hex numbers ev r kind k
    | inr (inl (kind, family)) ↦ connect-HasLine lib hex numbers ev r kind
    | inr (inr (kind, access, k)) ↦ fileopen-HasLine lib hex numbers ev r kind access k
  ]

  line-AreLineChars :
      (ev : SecurityEvent) (r : IsRecordable ev) (h : HasLine lib ev)
      → All IsLineChar (words (h.k ∷ h.ks) h.lead ev (c_string ev.comm) h.tail)
  line-AreLineChars ev r h =
      words-line (h.k ∷ h.ks) h.lead ev (c_string ev.comm) h.tail h.word h.spaces r.comm.plain
        h.chars

  named_line :
      (ev : SecurityEvent) (comm : Bytes)
      → IsRecordable ev
      → c_string ev.comm ≡ comm
      → (h : HasLine lib ev)
      → parse_line lib (words (h.k ∷ h.ks) h.lead ev comm h.tail) ≡ parsed (event (again ev) [])
  named_line ev [] r e h = absurd (r.comm.some_text e)
  named_line ev (c ∷ cs) r e h =
      parse_words lib hex numbers h.k h.ks h.lead ev c cs h.tail (parsed (event (again ev) []))
        h.word h.spaces r.sizes.pid r.sizes.ppid (rw e at r.comm.plain)
        (rw e at (line-AreLineChars ev r h)) h.start
        (λ token decoded. h.fields token (decoded ∙ sym e))

  -- A line that is printed is read as the event.
  pub parse_line-recorded :
      (ev : SecurityEvent)
      → IsRecordable ev
      → parse_line lib (format_line lib ev) ≡ parsed (event (again ev) [])
  parse_line-recorded ev r =
      let h = has_line ev r in
      ap (parse_line lib) h.printed ∙ named_line ev (c_string ev.comm) r refl h

  pub format_line-NoNewline :
      (ev : SecurityEvent) → IsRecordable ev → All NoNewline (format_line lib ev)
  format_line-NoNewline ev r =
      let h = has_line ev r in
      rw h.printed (
        line-NoNewline (words (h.k ∷ h.ks) h.lead ev (c_string ev.comm) h.tail)
          (line-AreLineChars ev r h))

  pub format_line-some : (ev : SecurityEvent) → IsRecordable ev → format_line lib ev ≢ []
  format_line-some ev r e = let h = has_line ev r in let p = h.printed in cc

  abbrev pub delay_line : ℕ → Bytes
  delay_line ms = text "delay " ++ decimal ms

  no_comment : (ms : ℕ) → break_at (λ d. d == 35) (delay_line ms) ≡ (delay_line ms, [])
  unfolding text
  no_comment ms =
      break_at-none (λ d. d == 35) (delay_line ms)
        (refl, (refl, (refl, (refl, (refl, (refl, decimal-NoHash ms))))))

  delay_word : (ms : ℕ) → read_token (delay_line ms) ≡ some (text "delay", 32 ∷ decimal ms)
  unfolding text is_space
  delay_word ms =
      read_token_lem 100 (101 ∷ 108 ∷ 97 ∷ 121 ∷ []) (32 ∷ decimal ms)
        ((refl, refl), ((refl, refl), ((refl, refl), ((refl, refl), ((refl, refl), tt)))))
        (space_ends (decimal ms))

  delay_read :
      (ms : ℕ)
      → ms < 2 ^ 63
      → line_of lib [] (some (text "delay", 32 ∷ decimal ms)) ≡ parsed (delay ms)
  unfolding line_of parse_delay text bytes_eq is_space
  delay_read ms l = let r = numbers.reads_long ms (32 ∷ []) l (refl, tt) in ap (delay_of lib) r

  pub parse_line-delay : (ms : ℕ) → ms < 2 ^ 63 → parse_line lib (delay_line ms) ≡ parsed (delay ms)
  parse_line-delay ms l =
      parse_uncommented lib hex numbers (delay_line ms) (no_comment ms)
      ∙ ap (line_of lib []) (delay_word ms)
      ∙ delay_read ms l

  pub delay_line-NoNewline : (ms : ℕ) → All NoNewline (delay_line ms)
  unfolding text
  delay_line-NoNewline ms = (refl, (refl, (refl, (refl, (refl, (refl, decimal-NoNewline ms))))))
