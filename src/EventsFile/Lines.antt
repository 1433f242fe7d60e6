-- ===== src/EventsFile/Lines.antt =====
-- The line of each kind of event, as `format_line` of common/events_file.h prints it and `parse` reads it.
use pqc_edr.Base.{
  ◌<◌, ◌≤◌, ◌≡◌, refl, ap, ◌∙◌, true, false, inl, inr, ◌==◌, [], ◌∷◌, ◌++◌, length, replicate, map,
  All, All-append, append_assoc, arith,
}
use pqc_edr.Base.Words.{Bytes}
use pqc_edr.Base.Text.{text, c_string, decimal, bytes_eq, starts_with}
use pqc_edr.Event.{
  SecurityEvent, evt_execve, evt_tcp_connect, evt_file_open, filename_len, ancestors,
}
use pqc_edr.Agent.Synthetic.{zero_event}
use pqc_edr.EventsFile.{
  Numbers, encode_field, encode_ancestry, common_text, execve_text, connect_text, path_text,
  fileopen_text, access_to_str, format_line,
}
use pqc_edr.EventsFile.Tokens.{is_space}
use pqc_edr.EventsFile.Parser.{
  parsed, event, done, parse_execve, parse_connect, parse_fileopen, event_line, line_of, label_of,
}
use pqc_edr.EventsFile.Fields.{HexLaws, IsTokenChar, encode_field-AreTokenChars}
use pqc_edr.EventsFile.Access.{format_line-whole}
use pqc_edr.EventsFile.Words.{IsLineChar, token-line, spaced, decimal-AreTokenChars}
use pqc_edr.EventsFile.Ancestry.{
  DecimalLaws, IsKept, IsLineage, or_question-kept, again_one, no_generation,
}
use pqc_edr.EventsFile.Ancestry.Read.{options-again}
use pqc_edr.EventsFile.Ancestry.Printed.{ancestry-IsEnd}
use pqc_edr.EventsFile.Kinds.{
  IsKeptPath, execve_fields, connect_fields, fileopen_fields, access_to_str-token,
}
use pqc_edr.EventsFile.Tokens.{find_after}
use pqc_edr.EventsFile.Recordable.{
  IsRecordable, base, as_execve, as_connect, as_fileopen, again, HasLine,
}

module _ (lib : Numbers) (hex : HexLaws lib) (numbers : DecimalLaws lib) where
  -- The fields of an event are followed by its ancestry.
  done-again :
      (ev got : SecurityEvent)
      → IsLineage ev.anc
      → got.anc ≡ replicate ancestors no_generation
      → done lib [] got (encode_ancestry ev)
        ≡ parsed (event (record got { anc = map again_one ev.anc }) [])
  unfolding encode_ancestry
  done-again ev got k blank =
      ap (λ (x : SecurityEvent). parsed (event x []))
        (options-again lib hex numbers ev.anc k got blank)

  blank_base : (ev : SecurityEvent) → (base ev).anc ≡ replicate ancestors no_generation
  unfolding zero_event
  blank_base ev = refl

  short_address : (ev : SecurityEvent) → IsRecordable ev → length (lib.inet_ntop ev.tcp.daddr) ≤ 15
  short_address ev r =
      let (c, s, shown, chars, short) = numbers.prints_address ev.tcp.daddr r.address in
      rw shown short

  pub execve-HasLine :
      (ev : SecurityEvent)
      → IsRecordable ev
      → ev.type ≡ evt_execve
      → IsKept filename_len (c_string ev.execve.filename)
      → HasLine lib ev
  unfolding event_line line_of label_of text bytes_eq is_space execve_text common_text find_after
      starts_with
  execve-HasLine ev r kind k =
      let file = c_string ev.execve.filename in
      let rest = encode_ancestry ev in
      let (ends, chars) = ancestry-IsEnd ev.anc r.lineage in
      let is_kind : (ev.type == evt_execve) ≡ true = ground arith in
      let whole : format_line lib ev ≡ execve_text ev ++ rest =
        format_line-whole lib ev r.sizes (short_address ev r) ∙ rw is_kind refl in
      let same : record (as_execve ev) { anc = map again_one ev.anc } ≡ again ev =
        rw is_kind refl in
      record {
        k = 101;
        ks = 120 ∷ 101 ∷ 99 ∷ 118 ∷ 101 ∷ [];
        lead = 32 ∷ [];
        tail = encode_field file ++ rest;
        printed =
            whole
            ∙ rw
                (
                  or_question-kept (c_string ev.comm) r.comm.some_text,
                  or_question-kept file k.some_text,
                )
                (simp append_assoc);
        word = (
          (refl, refl),
          ((refl, refl), ((refl, refl), ((refl, refl), ((refl, refl), ((refl, refl), tt))))),
        );
        spaces = (refl, tt);
        chars =
            All-append IsLineChar (encode_field file) rest
              (token-line (encode_field file) (encode_field-AreTokenChars file k.plain))
              (unfold encode_ancestry in chars);
        start = λ rest. refl;
        fields = λ token decoded.
            ap
              (λ (t : Bytes).
                parse_execve lib [] (zero_event 0 0 ev.pid ev.ppid (c_string t))
                  (32 ∷ (encode_field file ++ rest)))
              decoded
            ∙ execve_fields lib hex numbers (base ev) file rest k (unfold encode_ancestry in ends)
            ∙ done-again ev (as_execve ev) r.lineage (blank_base ev)
            ∙ ap (λ (x : SecurityEvent). parsed (event x [])) same;
      }

  pub connect-HasLine :
      (ev : SecurityEvent) → IsRecordable ev → ev.type ≡ evt_tcp_connect → HasLine lib ev
  unfolding event_line line_of label_of text bytes_eq is_space connect_text common_text find_after
      starts_with
  connect-HasLine ev r kind =
      let ip = lib.inet_ntop ev.tcp.daddr in
      let rest = encode_ancestry ev in
      let (ends, line) = ancestry-IsEnd ev.anc r.lineage in
      let (c, s, shown, token_chars, short) = numbers.prints_address ev.tcp.daddr r.address in
      let ip_chars : All IsTokenChar ip = rw shown token_chars in
      let other : (ev.type == evt_execve) ≡ false = ground arith in
      let is_kind : (ev.type == evt_tcp_connect) ≡ true = ground arith in
      let whole : format_line lib ev ≡ connect_text lib ev ++ rest =
        format_line-whole lib ev r.sizes (short_address ev r) ∙ rw (other, is_kind) refl in
      let same : record (as_connect ev) { anc = map again_one ev.anc } ≡ again ev =
        rw (other, is_kind) refl in
      let port_line =
        All-append IsLineChar (decimal ev.tcp.dport) rest
          (token-line (decimal ev.tcp.dport) (decimal-AreTokenChars ev.tcp.dport))
          (unfold encode_ancestry in line) in
      record {
        k = 99;
        ks = 111 ∷ 110 ∷ 110 ∷ 101 ∷ 99 ∷ 116 ∷ [];
        lead = [];
        tail = ip ++ (32 ∷ (decimal ev.tcp.dport ++ rest));
        printed =
            whole ∙ rw (or_question-kept (c_string ev.comm) r.comm.some_text) (simp append_assoc);
        word = (
          (refl, refl),
          (
            (refl, refl),
            ((refl, refl), ((refl, refl), ((refl, refl), ((refl, refl), ((refl, refl), tt))))),
          ),
        );
        spaces = tt;
        chars = spaced ip (decimal ev.tcp.dport ++ rest) ip_chars port_line;
        start = λ rest. refl;
        fields = λ token decoded.
            ap
              (λ (t : Bytes).
                parse_connect lib [] (zero_event 0 0 ev.pid ev.ppid (c_string t))
                  (32 ∷ (ip ++ (32 ∷ (decimal ev.tcp.dport ++ rest)))))
              decoded
            ∙ connect_fields lib hex numbers (base ev) ev.tcp.daddr ev.tcp.dport rest r.address
                r.sizes.dport (unfold encode_ancestry in ends)
            ∙ done-again ev (as_connect ev) r.lineage (blank_base ev)
            ∙ ap (λ (x : SecurityEvent). parsed (event x [])) same;
      }

  blank_path : (ev : SecurityEvent) → (base ev).file.path ≡ replicate filename_len 0
  unfolding zero_event
  blank_path ev = refl

  path-line : (path : Bytes) → IsKeptPath path → All IsLineChar (path_text path)
  unfolding path_text text is_space
  path-line [] h = (inr (refl, refl), tt)
  path-line (c ∷ s) (inl empty) = cc
  path-line (c ∷ s) (inr (k, other)) =
      token-line (encode_field (c ∷ s)) (encode_field-AreTokenChars (c ∷ s) k.plain)

  pub fileopen-HasLine :
      (ev : SecurityEvent)
      → IsRecordable ev
      → ev.type ≡ evt_file_open
      → ev.file.access < 16
      → IsKeptPath (c_string ev.file.path)
      → HasLine lib ev
  unfolding event_line line_of label_of text bytes_eq is_space fileopen_text common_text find_after
      starts_with
  fileopen-HasLine ev r kind access k =
      let path = path_text (c_string ev.file.path) in
      let letters = access_to_str ev.file.access in
      let rest = encode_ancestry ev in
      let (ends, line) = ancestry-IsEnd ev.anc r.lineage in
      let (c, s, shown, token_chars) = access_to_str-token ev.file.access in
      let letter_chars : All IsTokenChar letters = rw shown token_chars in
      let not_execve : (ev.type == evt_execve) ≡ false = ground arith in
      let not_connect : (ev.type == evt_tcp_connect) ≡ false = ground arith in
      let is_kind : (ev.type == evt_file_open) ≡ true = ground arith in
      let whole : format_line lib ev ≡ fileopen_text ev ++ rest =
        format_line-whole lib ev r.sizes (short_address ev r)
        ∙ rw (not_execve, not_connect, is_kind) refl in
      let same : record (as_fileopen ev) { anc = map again_one ev.anc } ≡ again ev =
        rw (not_execve, not_connect) refl in
      let last =
        All-append IsLineChar path rest (path-line (c_string ev.file.path) k)
          (unfold encode_ancestry in line) in
      let dev =
        spaced (decimal ev.file.dev) (path ++ rest) (decimal-AreTokenChars ev.file.dev) last in
      let after_ino = decimal ev.file.dev ++ (32 ∷ (path ++ rest)) in
      let ino = spaced (decimal ev.file.ino) after_ino (decimal-AreTokenChars ev.file.ino) dev in
      record {
        k = 102;
        ks = 105 ∷ 108 ∷ 101 ∷ 111 ∷ 112 ∷ 101 ∷ 110 ∷ [];
        lead = [];
        tail = letters ++ (32 ∷ (decimal ev.file.ino ++ (32 ∷ after_ino)));
        printed =
            whole ∙ rw (or_question-kept (c_string ev.comm) r.comm.some_text) (simp append_assoc);
        word = (
          (refl, refl),
          (
            (refl, refl),
            (
              (refl, refl),
              ((refl, refl), ((refl, refl), ((refl, refl), ((refl, refl), ((refl, refl), tt))))),
            ),
          ),
        );
        spaces = tt;
        chars = spaced letters (decimal ev.file.ino ++ (32 ∷ after_ino)) letter_chars ino;
        start = λ rest. refl;
        fields = λ token decoded.
            ap
              (λ (t : Bytes).
                parse_fileopen lib [] (zero_event 0 0 ev.pid ev.ppid (c_string t))
                  (32 ∷ (letters ++ (32 ∷ (decimal ev.file.ino ++ (32 ∷ after_ino))))))
              decoded
            ∙ fileopen_fields lib hex numbers (base ev) ev.file.access ev.file.ino ev.file.dev
                (c_string ev.file.path) rest access r.sizes.ino r.sizes.dev k (blank_path ev)
                (unfold encode_ancestry in ends)
            ∙ done-again ev (as_fileopen ev) r.lineage (blank_base ev)
            ∙ ap (λ (x : SecurityEvent). parsed (event x [])) same;
      }
