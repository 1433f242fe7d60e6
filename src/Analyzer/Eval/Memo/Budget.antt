-- ===== src/Analyzer/Eval/Memo/Budget.antt =====
-- The cap on the calls of `MemoLlm` of analyzer/src/eval.cpp.
use pqc_edr.Base.{
  ℕ, ◌+◌, ◌^◌, ◌≤◌, ◌<◌, ◌≡◌, inl, inr, Bool, true, false, Bool-cases, Option, none, some, List,
  leb, if◌then◌else◌, arith,
}
use pqc_edr.Base.Words.{Bytes}
use pqc_edr.Base.Text.{bytes_eq}
use pqc_edr.Event.{SecurityEvent}
use pqc_edr.Analyzer.Libc.{Libc}
use pqc_edr.Analyzer.Llm.{Classification, LlmClient}
use pqc_edr.Analyzer.Correlator.State.{Correlator}
use pqc_edr.Analyzer.Correlator.Maps.{find_entry}
use pqc_edr.Analyzer.Pipeline.{classify_all}
use pqc_edr.Analyzer.Pipeline.Calls.{counting}
use pqc_edr.Analyzer.Pipeline.Kept.{classify_all-keeps}
use pqc_edr.Analyzer.Eval.Memo.{Memo, new_memo, ask, get_with, get, memo_llm}

module _ {S : Type 0} (llm : LlmClient S) (cap : ℕ) (small : cap < 2 ^ 64) where
  -- The calls that the inner client has got are counted, and within the cap.
  abbrev IsWithin : Memo (S × ℕ × ℕ) → Type 0
  IsWithin m = (m.calls ≤ cap) × (m.inner.1 + m.inner.2 ≡ m.calls)

  get_with-IsWithin :
      (m : Memo (S × ℕ × ℕ)) (context : Bytes) (deep : Bool) (found : Option Classification)
      → IsWithin m
      → IsWithin (get_with (counting llm) cap m context deep found).1
  unfolding get_with ask counting
  get_with-IsWithin m context deep (some v) (c, e) = (c, e)
  get_with-IsWithin m context true none (c, e) = elim (Bool-cases (leb cap m.calls)) [
    | inl full ↦ rw full (c, e)
    | inr room ↦ rw room (ground arith, ground arith)
  ]
  get_with-IsWithin m context false none (c, e) = elim (Bool-cases (leb cap m.calls)) [
    | inl full ↦ rw full (c, e)
    | inr room ↦ rw room (ground arith, ground arith)
  ]

  get-IsWithin :
      (m : Memo (S × ℕ × ℕ)) (context : Bytes) (deep : Bool)
      → IsWithin m
      → IsWithin (get (counting llm) cap m context deep).1
  unfolding get
  get-IsWithin m context deep p =
      get_with-IsWithin m context deep
        (find_entry bytes_eq context (if deep then m.sonnet else m.haiku)) p

  -- However many events a run has, the client behind the memo gets exactly the calls that the memo
  -- counts, and never more than the cap.
  pub memo_budget :
      (libc : Libc) (evs : List SecurityEvent) (s : S) (corr : Correlator)
      → let m = (classify_all libc (memo_llm (counting llm) cap) evs (new_memo (s, 0, 0)) corr).1 in
        (m.calls ≤ cap) × (m.inner.1 + m.inner.2 ≡ m.calls)
  memo_budget libc evs s corr =
      classify_all-keeps libc (memo_llm (counting llm) cap) IsWithin
        (λ m context p. get-IsWithin m context false p)
        (λ m context p. get-IsWithin m context true p) evs (new_memo (s, 0, 0)) corr
        (omega arith, omega arith)
