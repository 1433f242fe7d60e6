-- ===== src/Analyzer/Claude/Verdicts.antt =====
-- A failed or malformed call of analyzer/src/llm_client_claude.cpp never says that an event is normal.
use pqc_edr.Base.{
  ℕ, ◌≡◌, ◌≢◌, refl, ap, Bool, false, Bool-cases, inl, inr, Option, none, some, is_empty, ◌==◌,
  arith,
}
use pqc_edr.Base.Words.{Bytes}
use pqc_edr.Base.Text.{text, bytes_eq, bytes_eq_iff}
use pqc_edr.Analyzer.Alert.{normal}
use pqc_edr.Analyzer.Claude.{
  parse_verdict, extract_json, fail_safe, Reply, no_handle, failed, answered, Parsed, thrown,
  parsed, Answer, Web, value, classification_of, read_body, read_reply, call,
}

fails : (model why : Bytes) → (fail_safe model why).verdict ≢ normal
unfolding fail_safe
fails model why h = cc h

parse_verdict-normal : (s : Bytes) → parse_verdict s ≡ normal → s ≡ text "normal"
unfolding parse_verdict
parse_verdict-normal s h = ground (arith, bytes_eq_iff s (text "normal"))

unknown_text : text "unknown" ≢ text "normal"
unfolding text bytes_eq
unknown_text h = cc ((bytes_eq_iff (text "unknown") (text "normal")).1 h)

named_normal :
    (o : Option Bytes) → value o (text "unknown") ≡ text "normal" → o ≡ some (text "normal")
named_normal none h = absurd (unknown_text h)
named_normal (some v) h = rw h

module _ {W : Type 0} (web : Web W) where
  -- The body has a text with an object whose verdict is "normal".
  pub record SaysNormal (body : Bytes) : Type 0 where
    pub content : Bytes
    pub readable : web.content_text body ≡ parsed content
    pub answer : Answer
    pub well_formed : web.answer (extract_json content) ≡ parsed answer
    pub says : answer.verdict ≡ some (text "normal")

  classified_normal :
      (model body : Bytes) (deep : Bool) (p : Answer) (u : Parsed (ℕ × ℕ))
      → web.usage body ≡ u
      → (classification_of web model deep body p).verdict ≡ normal
      → p.verdict ≡ some (text "normal")
  unfolding classification_of
  classified_normal model body deep p (thrown why) e h =
      absurd (fails model _ (rw (e, classification_of) at h))
  classified_normal model body deep p (parsed (i, o)) e h =
      named_normal p.verdict (parse_verdict-normal _ (rw (e, classification_of) at h))

  body_normal :
      (model body : Bytes) (deep : Bool) (t : Parsed Bytes)
      → web.content_text body ≡ t
      → (read_body web model deep body).verdict ≡ normal
      → SaysNormal body
  unfolding read_body
  body_normal model body deep (thrown why) e h = absurd (fails model _ (rw (e, read_body) at h))
  body_normal model body deep (parsed content) e h =
      elim (Bool-cases (is_empty (extract_json content))) [
        | inl missing ↦ absurd (fails model _ (rw (e, missing, read_body) at h))
        | inr found ↦ answers (web.answer (extract_json content)) refl
      ]
    where
      answers : (a : Parsed Answer) → web.answer (extract_json content) ≡ a → SaysNormal body
      answers (thrown why) b = elim (Bool-cases (is_empty (extract_json content))) [
        | inl missing ↦ absurd (fails model _ (rw (e, missing, read_body) at h))
        | inr found ↦ absurd (fails model _ (rw (e, found, b, read_body) at h))
      ]
      answers (parsed p) b = elim (Bool-cases (is_empty (extract_json content))) [
        | inl missing ↦ absurd (fails model _ (rw (e, missing, read_body) at h))
        | inr found ↦ record {
          content = content;
          readable = e;
          answer = p;
          well_formed = b;
          says =
              classified_normal model body deep p (web.usage body) refl
                (rw (e, found, b, read_body) at h);
        }
      ]

  reply_normal :
      (model : Bytes) (deep : Bool) (r : Reply)
      → (read_reply web model deep r).verdict ≡ normal
      → (body : Bytes) × (r ≡ answered 200 body) × SaysNormal body
  unfolding read_reply
  reply_normal model deep no_handle h = absurd (fails model _ h)
  reply_normal model deep (failed why) h = absurd (fails model _ h)
  reply_normal model deep (answered status body) h = elim (Bool-cases (status == 200)) [
    | inr other ↦ absurd (fails model _ (rw (other, read_reply) at h))
    | inl fine ↦
        let two_hundred : status ≡ 200 = ground arith in
        (
          body,
          ap (λ (n : ℕ). answered n body) two_hundred,
          body_normal model body deep (web.content_text body) refl (rw (fine, read_reply) at h),
        )
  ]

  -- The Claude client calls an event normal only where it has a key, the API answered with status 200, and the
  -- object in the answer's text has the verdict "normal". So no failed call and no malformed answer does.
  pub call-normal :
      (api_key : Bytes) (w : W) (model system user_msg : Bytes) (max_tokens : ℕ) (deep : Bool)
      → (call web api_key w model system user_msg max_tokens deep).0.verdict ≡ normal
      → (is_empty api_key ≡ false)
        × (body : Bytes) × ((web.post w api_key model system user_msg max_tokens).0
            ≡ answered 200 body)
        × SaysNormal body
  unfolding call
  call-normal api_key w model system user_msg max_tokens deep h =
      elim (Bool-cases (is_empty api_key)) [
        | inl no_key ↦ absurd (fails model _ (rw (no_key, call) at h))
        | inr key ↦
            let reply = (web.post w api_key model system user_msg max_tokens).0 in
            let (body, came, says) = reply_normal model deep reply (rw (key, call) at h) in
            (key, body, came, says)
      ]
