-- ===== src/Crypto/Record/Stream.antt =====
-- A run of crypto/src/record.cpp over many records: the sender's loop and the receiver's loop.
use pqc_edr.Base.{ℕ, ◌+◌, ◌^◌, ◌≤◌, ◌<◌, ◌≡◌, ◌≢◌, drop, none, some, List, [], ◌∷◌, All, arith}
use pqc_edr.Base.Words.{Bytes}
use pqc_edr.Crypto.Result.{Result, ok, err, ◌>>=◌, >>=-eq-ok}
use pqc_edr.Crypto.Record.{Gcm, Direction, max_seq, make_nonce, seal, open_record, aes_gcm_seal}
use pqc_edr.Crypto.Record.Laws.{GcmLaws, open-seal}

-- A cipher that shows the nonce that it is given, in the place of its output.
abbrev pub spy : Gcm
spy = record {
  encrypt = λ key nonce aad pt. some ([], nonce);
  decrypt = λ key nonce aad ct tag. none;
}

-- What a `seal` shows of the nonce: what follows the header of a record that the spy made.
abbrev pub shown : Result (Bytes × Direction) → Bytes
shown (err e) = []
shown (ok (rec, s)) = drop 2 rec

-- The nonce that `seal` passes to the cipher for this plaintext.
abbrev pub nonce_of : Direction → Bytes → Bytes
nonce_of s p = shown (seal spy s p)

module _ (g : Gcm) where
  -- `seal` called on each plaintext in turn, and `open` on each record; the first throw ends the run.
  abbrev pub seal_all : Direction → List Bytes → Result (List Bytes × Direction)
  seal_all s [] = ok ([], s)
  seal_all s (p ∷ ps) = do (rec, s) ← seal g s p; (recs, s) ← seal_all s ps; ok (rec ∷ recs, s)

  abbrev pub open_all : Direction → List Bytes → Result (List Bytes × Direction)
  open_all s [] = ok ([], s)
  open_all s (r ∷ rs) = do (pt, s) ← open_record g s r; (pts, s) ← open_all s rs; ok (pt ∷ pts, s)

  -- The nonces that a sender's calls of `seal` pass to the cipher for a sequence of plaintexts. A
  -- plaintext whose `seal` throws uses none, and the sender goes on from the state that it had.
  abbrev pub nonces : Direction → List Bytes → List Bytes
  nonces s [] = []
  nonces s (p ∷ ps) = elim (seal g s p) [
    | ok (rec, s') ↦ nonce_of s p ∷ nonces s' ps
    | err e ↦ nonces s ps
  ]

  -- A receiver in the sender's state opens the whole run, in order, and ends in the sender's state.
  pub open_all-seal_all :
      (laws : GcmLaws g) (s t : Direction) (ps recs : List Bytes)
      → seal_all s ps ≡ ok (recs, t)
      → open_all s recs ≡ ok (ps, t)
  open_all-seal_all laws s t [] recs h = let r : recs ≡ [] = cc in let e : s ≡ t = cc in rw (r, e)
  open_all-seal_all laws s t (p ∷ ps) recs h =
      let ((rec, s'), first, h1) = >>=-eq-ok (seal g s p) _ h in
      let ((rest, u), others, h2) = >>=-eq-ok (seal_all s' ps) _ h1 in
      let last : ◌≡◌ {A = Result (List Bytes × Direction)} (ok (rec ∷ rest, u)) (ok (recs, t)) =
        h2 in
      let r : recs ≡ rec ∷ rest = cc in
      let e : u ≡ t = cc in
      rw (r, open-seal g laws s p rec s' first, open_all-seal_all laws s' u ps rest others, e)

  -- A successful `seal` keeps the key and the base and counts one record.
  pub seal_advances :
      (s : Direction) (p rec : Bytes) (s' : Direction)
      → seal g s p ≡ ok (rec, s')
      → (s'.iv_base ≡ s.iv_base) × (s'.seq ≡ s.seq + 1) × (s.seq ≢ max_seq)
  unfolding seal aes_gcm_seal
  seal_advances s p rec s' h = ground arith

  -- Every nonce of a run belongs to a number from the sender's on.
  abbrev After : Bytes → ℕ → Bytes → Type 0
  After iv n nonce = (k : ℕ) × (n ≤ k) × (k < 2 ^ 64) × (nonce ≡ make_nonce iv k)

  abbrev pub AllDistinct : List Bytes → Type 0
  AllDistinct [] = Unit
  AllDistinct (x ∷ xs) = All (λ y. x ≢ y) xs × AllDistinct xs
