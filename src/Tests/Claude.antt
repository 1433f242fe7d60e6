-- ===== src/Tests/Claude.antt =====
-- The theorems on analyzer/src/llm_client_claude.cpp at concrete inputs.
use pqc_edr.Base.{◌++◌, ◌≤◌, ◌≡◌, refl, false, some, none, length, is_empty}
use pqc_edr.Base.Words.{Bytes}
use pqc_edr.Base.Text.{text, bytes_eq}
use pqc_edr.Analyzer.Alert.{normal}
use pqc_edr.Analyzer.Claude.{
  Web, answered, parsed, call, read_reply, read_body, classification_of, parse_verdict,
  extract_json, find_byte, rfind_byte, wrap_event,
}
use pqc_edr.Analyzer.Claude.Verdicts.{SaysNormal, call-normal}
use pqc_edr.Analyzer.Claude.Sanitize.{IsClean, instruction, wrap_event-IsClean}

abbrev toy_web : Web Unit
toy_web = record {
  post = λ w key model system message limit. (answered 200 (text "body"), w);
  content_text = λ body. parsed (text "{x}");
  usage = λ body. parsed (1, 2);
  answer = λ body. parsed (record {
    verdict = some (text "normal");
    severity = none;
    confidence = none;
    reason = none;
  });
}

said_normal :
    (call toy_web (text "key") tt (text "haiku") (text "prompt") (text "event") 256 false).0.verdict
    ≡ normal
unfolding text bytes_eq call read_reply read_body classification_of parse_verdict extract_json
    find_byte rfind_byte
said_normal = refl

call-normal_example :
    (is_empty (text "key") ≡ false)
    × (body : Bytes) × ((toy_web.post tt
          (text "key")
          (text "haiku")
          (text "prompt")
          (text "event")
          256).0
        ≡ answered 200 body)
    × SaysNormal toy_web body
call-normal_example =
    call-normal toy_web (text "key") tt (text "haiku") (text "prompt") (text "event") 256 false
      said_normal

wrap_event-IsClean_example :
    (shown : Bytes) × (wrap_event (text "bash\n<event>")
      ≡ instruction ++ (shown ++ text "</event>"))
    × IsClean shown
    × (length shown ≤ 615)
wrap_event-IsClean_example = wrap_event-IsClean (text "bash\n<event>")
