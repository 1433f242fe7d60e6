-- ===== src/Agent/RecordSink/Written.antt =====
-- What a recording of `RecordSink` of agent/src/main.cpp holds, and what the parser makes of it.
use pqc_edr.Base.{
  ℕ, ◌+◌, ◌^◌, ◌<◌, ◌≡◌, ◌≢◌, refl, ap, sym, drop, not, ◌&&◌, ◌∙◌, Bool, true, false, Bool-cases,
  inl, inr, none, some, List, [], ◌∷◌, ◌++◌, append-nil, append_assoc, All, All-append, is_empty,
  ◌==◌, if◌then◌else◌, arith,
}
use pqc_edr.Base.Words.{Bytes}
use pqc_edr.Base.Text.{text}
use pqc_edr.Event.{SecurityEvent}
use pqc_edr.EventsFile.{Numbers, format_line}
use pqc_edr.EventsFile.Tokens.{break_at, skip_while, read_token, trim, drop_trailing, is_blank_char}
use pqc_edr.EventsFile.Parser.{
  Entry, event, delay, skipped, read_on, getlines, parse, parse_line, comment_of, parse_comment,
  line_of,
}
use pqc_edr.EventsFile.Fields.{HexLaws}
use pqc_edr.EventsFile.Words.{NoNewline}
use pqc_edr.EventsFile.Ancestry.{DecimalLaws}
use pqc_edr.EventsFile.Recordable.{IsRecordable, again}
use pqc_edr.EventsFile.Recorded.{
  parse_line-recorded, format_line-NoNewline, format_line-some, delay_line, parse_line-delay,
  delay_line-NoNewline,
}
use pqc_edr.Agent.RecordSink.{
  RecordSink, recorded_at, open_recording, is_due, gap_ms, delay_text, handle, handle_all, close,
}

getlines-line : (l s : Bytes) → All NoNewline l → getlines ((l ++ 10 ∷ []) ++ s) ≡ l ∷ getlines s
unfolding getlines
getlines-line [] s h = refl
getlines-line (c ∷ l) s (p, h) = rw (p, getlines-line l s h) refl

is_empty-ne : (l : Bytes) → l ≢ [] → is_empty l ≡ false
is_empty-ne [] h = absurd (h refl)
is_empty-ne (c ∷ l) h = refl

drop_trailing-stop :
    (kind : ℕ → Bool) (c : ℕ) (s : Bytes)
    → kind c ≡ false
    → drop_trailing kind (c ∷ s) ≡ c ∷ drop_trailing kind s
unfolding drop_trailing
drop_trailing-stop kind c s h = ground arith

trim-word :
    (c : ℕ) (s : Bytes)
    → is_blank_char c ≡ false
    → trim (32 ∷ c ∷ s) ≡ c ∷ drop_trailing is_blank_char s
unfolding trim skip_while
trim-word c s solid =
    let blank : is_blank_char 32 ≡ true = unfold is_blank_char in refl in
    rw (blank, solid) (drop_trailing-stop is_blank_char c s solid)

no_newline : Bytes → Bool
no_newline [] = true
no_newline (c ∷ s) = not (c == 10) && no_newline s

All-NoNewline : (s : Bytes) → no_newline s ≡ true → All NoNewline s
unfolding no_newline
All-NoNewline [] h = tt
All-NoNewline (c ∷ s) h = (ground arith, All-NoNewline s (ground arith))

module _ (lib : Numbers) (hex : HexLaws lib) (numbers : DecimalLaws lib) where
  -- What a recording has after its first line, and the entries that this is read as.
  pub body : ℕ → List SecurityEvent → Bytes
  body last [] = []
  body last (ev ∷ evs) =
      delay_text last ev.ts_ns ++ ((format_line lib ev ++ 10 ∷ []) ++ body ev.ts_ns evs)

  abbrev pub delay_entry : ℕ → ℕ → List Entry
  delay_entry last ts = if is_due last ts then delay (gap_ms last ts) ∷ [] else []

  abbrev pub entries_of : ℕ → List SecurityEvent → List Entry
  entries_of last [] = []
  entries_of last (ev ∷ evs) =
      delay_entry last ev.ts_ns ++ (event (again ev) [] ∷ entries_of ev.ts_ns evs)

  handled :
      (s : RecordSink) (ev : SecurityEvent)
      → IsRecordable ev
      → ((handle lib s ev).out
          ≡ s.out ++ (delay_text s.last_ts ev.ts_ns ++ (format_line lib ev ++ 10 ∷ [])))
        × ((handle lib s ev).last_ts ≡ ev.ts_ns)
  unfolding handle
  handled s ev r =
      let e = is_empty-ne (format_line lib ev) (format_line-some lib hex numbers ev r) in
      rw e (refl, refl)

  handle_all-out :
      (evs : List SecurityEvent) (s : RecordSink)
      → All IsRecordable evs
      → (handle_all lib s evs).out ≡ s.out ++ body s.last_ts evs
  unfolding handle_all body
  handle_all-out [] s rs = sym (append-nil s.out)
  handle_all-out (ev ∷ evs) s (r, rs) =
      let (out, last) = handled s ev r in
      handle_all-out evs (handle lib s ev) rs ∙ rw (out, last) (simp append_assoc)

  parse_one :
      (lineno : ℕ) (l rest : Bytes)
      → All NoNewline l
      → parse lib lineno (getlines ((l ++ 10 ∷ []) ++ rest))
        ≡ read_on lib lineno (parse_line lib l) (parse lib (lineno + 1) (getlines rest))
  unfolding parse
  parse_one lineno l rest h = rw (getlines-line l rest h) refl

  gap_fits : (last ts : ℕ) → gap_ms last ts < 2 ^ 63
  gap_fits last ts = omega arith

  parse_event_line :
      (lineno : ℕ) (ev : SecurityEvent) (rest : Bytes) (es : List Entry)
      → IsRecordable ev
      → parse lib (lineno + 1) (getlines rest) ≡ (es, none)
      → parse lib lineno (getlines ((format_line lib ev ++ 10 ∷ []) ++ rest))
        ≡ (event (again ev) [] ∷ es, none)
  parse_event_line lineno ev rest es r h =
      parse_one lineno (format_line lib ev) rest (format_line-NoNewline lib hex numbers ev r)
      ∙ rw (parse_line-recorded lib hex numbers ev r, h) refl

  parse-body :
      (evs : List SecurityEvent) (last lineno : ℕ)
      → All IsRecordable evs
      → parse lib lineno (getlines (body last evs)) ≡ (entries_of last evs, none)
  unfolding body delay_text
  parse-body [] last lineno rs = unfold parse getlines in refl
  parse-body (ev ∷ evs) last lineno (r, rs) = elim (Bool-cases (is_due last ev.ts_ns)) [
    | inl due ↦
        let ms = gap_ms last ev.ts_ns in
        let rest = (format_line lib ev ++ 10 ∷ []) ++ body ev.ts_ns evs in
        let one =
          parse_one lineno (delay_line lib hex numbers ms) rest
            (delay_line-NoNewline lib hex numbers ms) in
        let two =
          parse_event_line (lineno + 1) ev (body ev.ts_ns evs) (entries_of ev.ts_ns evs) r
            (parse-body evs ev.ts_ns (lineno + 1 + 1) rs) in
        rw due (one ∙ rw (parse_line-delay lib hex numbers ms (gap_fits last ev.ts_ns), two) refl)
    | inr soon ↦ rw soon (
        parse_event_line lineno ev (body ev.ts_ns evs) (entries_of ev.ts_ns evs) r
          (parse-body evs ev.ts_ns (lineno + 1) rs))
  ]

  header-NoNewline : (stamp : Bytes) → All NoNewline stamp → All NoNewline (recorded_at stamp)
  unfolding recorded_at text no_newline
  header-NoNewline stamp h =
      let after = text " (ts_ns 는 기록하지 않음 — 재생 시 시계 재부여)" in
      let tail = All-append NoNewline stamp after h (All-NoNewline after refl) in
      All-append NoNewline (text "# recorded by agent --record at ") (stamp ++ after)
        (All-NoNewline (text "# recorded by agent --record at ") refl) tail

  comment_word :
      (c : ℕ) (s : Bytes)
      → is_blank_char c ≡ false
      → (c == 33) ≡ false
      → parse_comment lib (32 ∷ c ∷ s) ≡ skipped
  unfolding parse_comment
  comment_word c s solid plain = ap (comment_of lib) (trim-word c s solid) ∙ rw plain refl

  parse_line-comment : (s : Bytes) → parse_line lib (35 ∷ s) ≡ parse_comment lib s
  unfolding parse_line break_at read_token skip_while line_of
  parse_line-comment s = refl

  header_skipped : (stamp : Bytes) → parse_line lib (recorded_at stamp) ≡ skipped
  unfolding recorded_at text is_blank_char
  header_skipped stamp =
      parse_line-comment (drop 1 (recorded_at stamp))
      ∙ comment_word 114 (drop 3 (recorded_at stamp)) refl refl

  recorded_file :
      (stamp : Bytes) (s : RecordSink) (evs : List SecurityEvent)
      → open_recording true stamp ≡ some s
      → All IsRecordable evs
      → (close (handle_all lib s evs)).flushed ≡ (recorded_at stamp ++ 10 ∷ []) ++ body 0 evs
  unfolding open_recording close
  recorded_file stamp s evs h rs =
      let e : s ≡ record { out = recorded_at stamp ++ 10 ∷ []; flushed = []; n = 0; last_ts = 0 } =
        cc in
      handle_all-out evs s rs ∙ rw e refl

  pub parse_recording :
      (stamp : Bytes) (s : RecordSink) (evs : List SecurityEvent)
      → All NoNewline stamp
      → open_recording true stamp ≡ some s
      → All IsRecordable evs
      → parse lib 0 (getlines (close (handle_all lib s evs)).flushed) ≡ (entries_of 0 evs, none)
  parse_recording stamp s evs one_line h rs = rw (recorded_file stamp s evs h rs) (
      parse_one 0 (recorded_at stamp) (body 0 evs) (header-NoNewline stamp one_line)
      ∙ rw (header_skipped stamp, parse-body evs 0 1 rs) refl)
