-- ===== src/Analyzer/Llm.antt =====
-- The LLM classifiers: analyzer/src/llm_client.h and the mock of llm_client.cpp.
-- The virtual class is a record of its two methods, each with the client's state before and after.
-- A `confidence` is kept as the text that `%.2f` prints, the only reading of it in the analyzer.
use pqc_edr.Base.{ℕ, Bool, ◌||◌, ◌++◌, if◌then◌else◌}
use pqc_edr.Base.Words.{Bytes}
use pqc_edr.Base.Text.{text, contains}
use pqc_edr.Analyzer.Alert.{Verdict, normal, suspicious, Severity, info, medium}

pub record Classification : Type 0 where
  pub verdict : Verdict
  pub severity : Severity
  pub confidence : Bytes
  pub reason : Bytes
  pub model : Bytes
  pub input_tokens : ℕ
  pub output_tokens : ℕ

pub record LlmClient (S : Type 0) : Type 0 where
  pub classify : S → Bytes → Classification × S
  pub deep_analyze : S → Bytes → Classification × S

-- A keyword that the mock suspects.
unfoldable pub is_suspect : Bytes → Bool
is_suspect context =
    contains (text "curl") context
    || (contains (text "wget") context
        || (contains (text "python") context
            || (contains (text "perl") context
                || (contains (text "/tmp") context
                    || (contains (text ":4444") context || contains (text "powershell") context)))))

unfoldable pub mock_classify : Bytes → Classification
mock_classify context =
    if is_suspect context
    then record {
      verdict = suspicious;
      severity = info;
      confidence = text "0.70";
      reason = text "다운로더/스크립트 실행 또는 비정상 아웃바운드 정황";
      model = text "mock-haiku";
      input_tokens = 0;
      output_tokens = 0;
    }
    else record {
      verdict = normal;
      severity = info;
      confidence = text "0.80";
      reason = text "특이사항 없음";
      model = text "mock-haiku";
      input_tokens = 0;
      output_tokens = 0;
    }

unfoldable pub mock_deep_analyze : Bytes → Classification
mock_deep_analyze context = record {
  verdict = suspicious;
  severity = medium;
  confidence = text "0.75";
  reason = text "심층 분석(mock): 실행/아웃바운드 패턴이 데이터 유출 또는 C2 통신 정황과 부합. 컨텍스트=[" ++ (context ++ text "]");
  model = text "mock-sonnet";
  input_tokens = 0;
  output_tokens = 0;
}

-- `MockLlmClient`, which has no state.
abbrev pub mock_llm : LlmClient Unit
mock_llm = record {
  classify = λ s context. (mock_classify context, s);
  deep_analyze = λ s context. (mock_deep_analyze context, s);
}
