-- ===== src/Analyzer/Eval/Memo.antt =====
-- `MemoLlm` of analyzer/src/eval.cpp: an LLM client that asks another one at most once for each
-- context, and at most `cap` times in all.
pub mod Sound
pub mod Alike
pub mod Transparent
pub mod Budget
use pqc_edr.Base.{
  ℕ, ◌+◌, ◌%◌, ◌^◌, Bool, true, false, leb, if◌then◌else◌, Option, none, some, List, [], ◌∷◌,
}
use pqc_edr.Base.Words.{Bytes}
use pqc_edr.Base.Text.{text, bytes_eq}
use pqc_edr.Analyzer.Alert.{unknown, info}
use pqc_edr.Analyzer.Llm.{Classification, LlmClient}
use pqc_edr.Analyzer.Correlator.Maps.{find_entry, put_entry}

-- `++n` and `n += k` on `uint64_t`
abbrev pub plus : ℕ → ℕ → ℕ
plus n k = (n + k) % 2 ^ 64

pub record Memo (S : Type 0) : Type 0 where
  pub inner : S
  pub calls : ℕ
  pub hits : ℕ
  pub capped : ℕ
  pub haiku_in : ℕ
  pub haiku_out : ℕ
  pub sonnet_in : ℕ
  pub sonnet_out : ℕ
  pub haiku : List (Bytes × Classification)
  pub sonnet : List (Bytes × Classification)

abbrev pub new_memo : {S : Type 0} → S → Memo S
new_memo s = record {
  inner = s;
  calls = 0;
  hits = 0;
  capped = 0;
  haiku_in = 0;
  haiku_out = 0;
  sonnet_in = 0;
  sonnet_out = 0;
  haiku = [];
  sonnet = [];
}

-- What a hit answers: the tokens are not paid again.
abbrev pub free : Classification → Classification
free c = record c { input_tokens = 0; output_tokens = 0 }

abbrev pub capped_answer : Classification
capped_answer = record {
  verdict = unknown;
  severity = info;
  confidence = text "0.00";
  reason = text "eval --max-llm-calls 도달";
  model = text "capped";
  input_tokens = 0;
  output_tokens = 0;
}

module _ {S : Type 0} (llm : LlmClient S) (cap : ℕ) where
  -- The call of the inner client, its tokens, and the entry.
  unfoldable pub ask : Memo S → Bytes → Bool → Classification × Memo S
  ask m context true =
      let r = llm.deep_analyze m.inner context in
      (
        r.0,
        record m {
          inner = r.1;
          calls = plus m.calls 1;
          sonnet_in = plus m.sonnet_in r.0.input_tokens;
          sonnet_out = plus m.sonnet_out r.0.output_tokens;
          sonnet = put_entry bytes_eq context r.0 m.sonnet;
        },
      )
  ask m context false =
      let r = llm.classify m.inner context in
      (
        r.0,
        record m {
          inner = r.1;
          calls = plus m.calls 1;
          haiku_in = plus m.haiku_in r.0.input_tokens;
          haiku_out = plus m.haiku_out r.0.output_tokens;
          haiku = put_entry bytes_eq context r.0 m.haiku;
        },
      )

  -- `get`, with what `memo.find` gives.
  unfoldable pub get_with : Memo S → Bytes → Bool → Option Classification → Classification × Memo S
  get_with m context deep (some c) = (free c, record m { hits = plus m.hits 1 })
  get_with m context deep none =
      if leb cap m.calls
      then (capped_answer, record m { capped = plus m.capped 1 })
      else ask m context deep

  unfoldable pub get : Memo S → Bytes → Bool → Classification × Memo S
  get m context deep =
      get_with m context deep (find_entry bytes_eq context (if deep then m.sonnet else m.haiku))

  abbrev pub memo_llm : LlmClient (Memo S)
  memo_llm = record {
    classify = λ m context. get m context false;
    deep_analyze = λ m context. get m context true;
  }
