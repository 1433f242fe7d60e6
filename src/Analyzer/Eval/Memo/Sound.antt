-- ===== src/Analyzer/Eval/Memo/Sound.antt =====
-- What `MemoLlm` of analyzer/src/eval.cpp remembers: the answers of the client behind it.
use pqc_edr.Base.{
  ℕ, ◌+◌, ◌^◌, ◌≤◌, ◌<◌, ◌≡◌, refl, ap, Bool, true, false, Option, none, some, List, All, leb,
  arith,
}
use pqc_edr.Base.Words.{Bytes}
use pqc_edr.Base.Text.{bytes_eq, bytes_eq_iff}
use pqc_edr.Analyzer.Llm.{Classification, LlmClient}
use pqc_edr.Analyzer.Correlator.Maps.{find_entry, All-put, All-find}
use pqc_edr.Analyzer.Eval.Memo.{Memo, free, ask, get_with, get}

-- A client whose answers depend on the context only.
pub record Answers {S : Type 0} (llm : LlmClient S) : Type 0 where
  pub fast : Bytes → Classification
  pub deep : Bytes → Classification
  pub classify_says : (s : S) (context : Bytes) → (llm.classify s context).0 ≡ fast context
  pub deep_says : (s : S) (context : Bytes) → (llm.deep_analyze s context).0 ≡ deep context

module _ {S : Type 0} (llm : LlmClient S) (cap : ℕ) (a : Answers llm) (small : cap < 2 ^ 64) where
  -- Every entry is the inner client's answer, and at most `n` calls have been made.
  abbrev pub IsSound : ℕ → Memo S → Type 0
  IsSound n m =
      All (λ (e : Bytes × Classification). e.1 ≡ a.fast e.0) m.haiku
      × All (λ (e : Bytes × Classification). e.1 ≡ a.deep e.0) m.sonnet
      × (m.calls ≤ n)

  abbrev pub said : Bool → Bytes → Classification
  said false context = a.fast context
  said true context = a.deep context

  ask_lem :
      (n : ℕ) (m : Memo S) (context : Bytes) (deep : Bool)
      → IsSound n m
      → n < cap
      → (free (ask llm cap m context deep).0 ≡ free (said deep context))
        × IsSound (n + 1) (ask llm cap m context deep).1
  unfolding ask
  ask_lem n m context false (h, s, c) l =
      let says = a.classify_says m.inner context in
      (
        ap free says,
        (
          All-put bytes_eq bytes_eq_iff (λ (e : Bytes × Classification). e.1 ≡ a.fast e.0) context
              (llm.classify m.inner context).0 m.haiku h says,
          s,
          omega arith,
        ),
      )
  ask_lem n m context true (h, s, c) l =
      let says = a.deep_says m.inner context in
      (
        ap free says,
        (
          h,
          All-put bytes_eq bytes_eq_iff (λ (e : Bytes × Classification). e.1 ≡ a.deep e.0) context
              (llm.deep_analyze m.inner context).0 m.sonnet s says,
          omega arith,
        ),
      )

  known :
      (answer : Bytes → Classification) (context : Bytes) (v : Classification)
      (memo : List (Bytes × Classification))
      → All (λ (e : Bytes × Classification). e.1 ≡ answer e.0) memo
      → find_entry bytes_eq context memo ≡ some v
      → v ≡ answer context
  known answer context v memo h e =
      All-find bytes_eq (λ (e : Bytes × Classification). e.1 ≡ answer e.0)
        (λ j k same. (bytes_eq_iff j k).0 same) context v memo h e

  get_with_lem :
      (n : ℕ) (m : Memo S) (context : Bytes) (deep : Bool) (found : Option Classification)
      → ((v : Classification) → found ≡ some v → v ≡ said deep context)
      → IsSound n m
      → n < cap
      → (free (get_with llm cap m context deep found).0 ≡ free (said deep context))
        × IsSound (n + 1) (get_with llm cap m context deep found).1
  unfolding get_with
  get_with_lem n m context deep (some v) right (h, s, c) l =
      (ap free (right v refl), (h, s, omega arith))
  get_with_lem n m context deep none right (h, s, c) l =
      let below : leb cap m.calls ≡ false = ground arith in
      rw below (ask_lem n m context deep (h, s, c) l)

  pub get_lem :
      (n : ℕ) (m : Memo S) (context : Bytes) (deep : Bool)
      → IsSound n m
      → n < cap
      → (free (get llm cap m context deep).0 ≡ free (said deep context))
        × IsSound (n + 1) (get llm cap m context deep).1
  unfolding get
  get_lem n m context false (h, s, c) l =
      get_with_lem n m context false (find_entry bytes_eq context m.haiku)
        (λ v e. known a.fast context v m.haiku h e) (h, s, c) l
  get_lem n m context true (h, s, c) l =
      get_with_lem n m context true (find_entry bytes_eq context m.sonnet)
        (λ v e. known a.deep context v m.sonnet s e) (h, s, c) l
