-- ===== src/Crypto/Record/Laws.antt =====
-- One record of crypto/src/record.cpp: opening undoes sealing, and accepts nothing else.
use pqc_edr.Base.{
  ℕ, suc, ◌+◌, ◌-◌, ◌≤◌, ◌≡◌, refl, ◌∙◌, some, Option-cases, inl, inr, [], ◌∷◌, ◌++◌, length, take,
  drop, arith, length-append, take-append, drop-append, take-append-drop, length-take, length-drop,
  take_all, ltb, ◌==◌, false, true,
}
use pqc_edr.Base.Words.{
  Bytes, AreBytes, high_byte, low_byte, join_bytes, join_bytes-bytes, join_bytes-lt,
  high_byte-join_bytes, low_byte-join_bytes,
}
use pqc_edr.Crypto.Result.{Result, ok, ◌>>=◌}
use pqc_edr.Crypto.Record.{
  Gcm, Direction, max_seq, make_nonce, seal, open_record, aes_gcm_seal, aes_gcm_open,
}

-- What is assumed of AES-256-GCM: the ciphertext is as long as the plaintext and the tag has 16
-- bytes, decryption undoes encryption, and a tag fits only what encryption gives (GCM has no
-- randomness: decryption computes the tag again and compares).
pub record GcmLaws (g : Gcm) : Type 0 where
  pub lengths :
      (key nonce aad pt ct tag : Bytes)
      → g.encrypt key nonce aad pt ≡ some (ct, tag)
      → (length ct ≡ length pt) × (length tag ≡ 16)
  pub decrypt-encrypt :
      (key nonce aad pt ct tag : Bytes)
      → g.encrypt key nonce aad pt ≡ some (ct, tag)
      → g.decrypt key nonce aad ct tag ≡ some pt
  pub encrypt-decrypt :
      (key nonce aad pt ct tag : Bytes)
      → g.decrypt key nonce aad ct tag ≡ some pt
      → g.encrypt key nonce aad pt ≡ some (ct, tag)

-- The frame of a record whose plaintext has `n` bytes.
abbrev record_of : ℕ → Bytes → Bytes → Bytes
record_of n ct tag = high_byte (n + 16) ∷ low_byte (n + 16) ∷ (ct ++ tag)

abbrev header_of : ℕ → Bytes
header_of n = high_byte (n + 16) ∷ low_byte (n + 16) ∷ []

abbrev advance : Direction → Direction
advance s = record s { seq = s.seq + 1 }

module _ (g : Gcm) (s : Direction) (fresh : (s.seq == max_seq) ≡ false) where
  open_canonical :
      (n : ℕ) (ct tag : Bytes)
      → n ≤ 0xffff - 16
      → length ct ≡ n
      → length tag ≡ 16
      → open_record g s (record_of n ct tag) ≡ (
          aes_gcm_open g s.key (make_nonce s.iv_base s.seq) (header_of n) ct tag >>= λ pt.
          ok (pt, advance s))
  unfolding open_record
  open_canonical n ct tag small hc ht =
      let len : suc (suc (length (ct ++ tag))) ≡ n + 18 = omega (arith, length-append ct tag) in
      let a : ltb (n + 18) 18 ≡ false = ground arith in
      let joined = join_bytes-bytes (n + 16) (omega arith) in
      let b : (n + 18 == 2 + (n + 16)) ≡ true = ground arith in
      let c : ltb (n + 16) 16 ≡ false = ground arith in
      let d : n + 16 - 16 ≡ n = omega arith in
      let first : take n (ct ++ tag) ≡ ct = take-append n ct tag hc in
      let shift : drop (2 + n) (record_of n ct tag) ≡ tag =
        let e : 2 + n ≡ suc (suc n) = omega arith in rw e (drop-append n ct tag hc) in
      let whole : take 16 tag ≡ tag = take_all 16 tag (omega arith) in
      simp (fresh, len, a, joined, b, c, d, first, shift, whole)

  seal_canonical :
      (pt : Bytes)
      → length pt ≤ 0xffff - 16
      → seal g s pt ≡ (
          aes_gcm_seal g s.key (make_nonce s.iv_base s.seq) (header_of (length pt)) pt >>= λ ct_tag.
          ok (header_of (length pt) ++ ct_tag, advance s))
  unfolding seal
  seal_canonical pt small =
      let a : ltb (0xffff - 16) (length pt) ≡ false = ground arith in simp (fresh, a)

-- What the checks of `open` leave.
open_checks :
    (g : Gcm) (s : Direction) (rec : Bytes) (x : Bytes × Direction)
    → open_record g s rec ≡ ok x
    → (hi : ℕ) × (lo : ℕ) × (rest : Bytes) × (rec ≡ hi ∷ lo ∷ rest)
      × ((s.seq == max_seq) ≡ false)
      × (length rest ≡ join_bytes hi lo)
      × (16 ≤ join_bytes hi lo)
unfolding open_record
open_checks g s [] x h = absurd (ground arith)
open_checks g s (a ∷ []) x h = absurd (ground arith)
open_checks g s (hi ∷ lo ∷ rest) x h =
    (hi, lo, rest, refl, ground arith, ground arith, ground arith)

-- A list of bytes with a fitting length field is the frame of its parts.
reframe :
    (hi lo : ℕ) (rest : Bytes)
    → AreBytes (hi ∷ lo ∷ rest)
    → length rest ≡ join_bytes hi lo
    → 16 ≤ join_bytes hi lo
    → let n = join_bytes hi lo - 16 in hi ∷ lo ∷ rest ≡ record_of n (take n rest) (drop n rest)
reframe hi lo rest bytes len enough =
    let n = join_bytes hi lo - 16 in
    let back : n + 16 ≡ join_bytes hi lo = omega arith in
    rw (
      back,
      high_byte-join_bytes hi lo bytes.0 bytes.1.0,
      low_byte-join_bytes hi lo bytes.0 bytes.1.0,
      take-append-drop n rest,
    )

seal-fresh :
    (g : Gcm) (s : Direction) (pt : Bytes) (x : Bytes × Direction)
    → seal g s pt ≡ ok x
    → ((s.seq == max_seq) ≡ false) × (length pt ≤ 0xffff - 16)
unfolding seal
seal-fresh g s pt x h = ground arith

module _ (g : Gcm) (laws : GcmLaws g) where
  -- What a direction seals, the same state at the other end opens, and both advance alike.
  pub open-seal :
      (s : Direction) (pt rec : Bytes) (s' : Direction)
      → seal g s pt ≡ ok (rec, s')
      → open_record g s rec ≡ ok (pt, s')
  unfolding aes_gcm_seal aes_gcm_open
  open-seal s pt rec s' h =
      let (fresh, small) = seal-fresh g s pt (rec, s') h in
      let n = length pt in
      let nonce = make_nonce s.iv_base s.seq in
      let h' = rw (seal_canonical g s fresh pt small) at h in
      elim (Option-cases (g.encrypt s.key nonce (header_of n) pt)) [
        | inl e ↦ cc (rw (e, aes_gcm_seal) at h')
        | inr ((ct, tag), e) ↦
            let (hc, ht) = laws.lengths s.key nonce (header_of n) pt ct tag e in
            let back = laws.decrypt-encrypt s.key nonce (header_of n) pt ct tag e in
            let written : ◌≡◌ {A = Result (Bytes × Direction)} (ok (record_of n ct tag, advance s))
                (ok (rec, s')) =
              rw (e, aes_gcm_seal) at h' in
            let rec_eq : rec ≡ record_of n ct tag = cc in
            let s_eq : s' ≡ advance s = cc in
            rw (rec_eq, s_eq, open_canonical g s fresh n ct tag small hc ht, back, aes_gcm_open)
      ]

  -- A record of bytes that opens is the one that the sender in the same state seals for the
  -- plaintext that comes out: nothing else is accepted at that sequence number.
  pub seal-open :
      (s : Direction) (pt rec : Bytes) (s' : Direction)
      → AreBytes rec
      → open_record g s rec ≡ ok (pt, s')
      → seal g s pt ≡ ok (rec, s')
  unfolding aes_gcm_seal aes_gcm_open
  seal-open s pt rec s' bytes h =
      let (hi, lo, rest, shape, fresh, len, enough) = open_checks g s rec (pt, s') h in
      let n : ℕ = join_bytes hi lo - 16 in
      let nonce = make_nonce s.iv_base s.seq in
      let framed = shape ∙ reframe hi lo rest (rw shape at bytes) len enough in
      let small : n ≤ 0xffff - 16 = omega (arith, join_bytes-lt hi lo) in
      let hc : length (take n rest) ≡ n = omega (arith, length-take n rest) in
      let ht : length (drop n rest) ≡ 16 = omega (arith, length-drop n rest) in
      let h' =
        rw (framed, open_canonical g s fresh n (take n rest) (drop n rest) small hc ht) at h in
      elim (Option-cases (g.decrypt s.key nonce (header_of n) (take n rest) (drop n rest))) [
        | inl e ↦ cc (rw (e, aes_gcm_open) at h')
        | inr (p, e) ↦
            let opened : ◌≡◌ {A = Result (Bytes × Direction)} (ok (p, advance s)) (ok (pt, s')) =
              rw (e, aes_gcm_open) at h' in
            let pt_eq : p ≡ pt = cc in
            let s_eq : s' ≡ advance s = cc in
            let again =
              laws.encrypt-decrypt s.key nonce (header_of n) p (take n rest) (drop n rest) e in
            let m : length p ≡ n = omega (
              arith,
              hc,
              laws.lengths s.key nonce (header_of n) p (take n rest) (drop n rest) again,
            ) in
            rw (
              ← pt_eq,
              framed,
              s_eq,
              seal_canonical g s fresh p (omega arith),
              m,
              aes_gcm_seal,
              again,
            )
      ]
