-- ===== src/Tests/Identity.antt =====
-- The theorems on crypto/src/identity.cpp at small files.
use pqc_edr.Base.{
  ℕ, ◌≡◌, ◌≢◌, refl, sym, ap, ◌∙◌, Bool-cases, inl, inr, true, none, Option, some, [], ◌∷◌,
  if◌then◌else◌,
}
use pqc_edr.Base.Words.{Bytes}
use pqc_edr.Base.Text.{text, bytes_eq, bytes_eq_refl, bytes_eq_iff}
use pqc_edr.Crypto.Result.{ok}
use pqc_edr.Crypto.IdentityFiles.{load_identity, read_bytes_file}
use pqc_edr.Crypto.IdentityFiles.Writing.{
  Disk, DiskLaws, generate_identity_files, write_bytes_file, sig_keypair,
}
use pqc_edr.Crypto.IdentityFiles.Provisioned.{generated_loads}
use pqc_edr.Tests.Handshake.{toy_libs, agent}

abbrev disk : Bytes → Option Bytes
disk path =
    if bytes_eq path (text "my.pub")
    then some (1 ∷ [])
    else if bytes_eq path (text "my.key")
    then some (2 ∷ [])
    else some (3 ∷ [])

loaded : load_identity toy_libs disk (text "my.pub") (text "my.key") (text "peer.pub") ≡ ok agent
unfolding load_identity read_bytes_file text bytes_eq
loaded = refl

-- A disk as the contents and the modes of the paths.
put {ℓ} : {V : Type ℓ} → (Bytes → V) → Bytes → V → Bytes → V
put f p v q = if bytes_eq q p then v else f q

put_same {ℓ} : {V : Type ℓ} (f : Bytes → V) (p : Bytes) (v : V) → put f p v p ≡ v
unfolding put
put_same f p v = rw (bytes_eq_refl p) refl

put_other {ℓ} : {V : Type ℓ} (f : Bytes → V) (p q : Bytes) (v : V) → p ≢ q → put f p v q ≡ f q
unfolding put
put_other f p q v ne = elim (Bool-cases (bytes_eq q p)) [
  | inl e ↦ absurd (ne (sym ((bytes_eq_iff q p).0 e)))
  | inr e ↦ rw e refl
]

abbrev ToyState : Type 0
ToyState = (Bytes → Option Bytes) × (Bytes → ℕ)

abbrev toy_disk : Disk
toy_disk = record {
  State = ToyState;
  open_file = λ d p. some (put d.0 p (some []), d.1);
  write = λ d p s. (true, (put d.0 p (some s), d.1));
  chmod = λ d p m. some (d.0, put d.1 p m);
  read = λ d p. d.0 p;
  mode = λ d p. d.1 p;
}

state_eq : (a b : ToyState) → some a ≡ some b → a ≡ b
state_eq a b h = cc

toy-DiskLaws : DiskLaws toy_disk
toy-DiskLaws = record {
  opened = λ d e p q h ne.
      let same = state_eq (put d.0 p (some []), d.1) e h in
      ap (λ (t : ToyState). t.0 q) (sym same) ∙ put_other d.0 p q (some []) ne;
  written = λ d p s h. put_same d.0 p (some s);
  others = λ d p q s ne. put_other d.0 p q (some s) ne;
  permitted = λ d e p q m h.
      let same = state_eq (d.0, put d.1 p m) e h in ap (λ (t : ToyState). t.0 q) (sym same);
  mode_set = λ d e p m h.
      let same = state_eq (d.0, put d.1 p m) e h in
      ap (λ (t : ToyState). t.1 p) (sym same) ∙ put_same d.1 p m;
}

abbrev empty_disk : ToyState
empty_disk = ((λ p. if bytes_eq p (text "peer.pub") then some (3 ∷ []) else none), (λ p. 420))

abbrev after_keygen : ToyState
after_keygen = (
  put
      (put (put (put empty_disk.0 (text "my.pub") (some [])) (text "my.pub") (some (1 ∷ [])))
        (text "my.key") (some []))
      (text "my.key") (some (2 ∷ [])),
  put empty_disk.1 (text "my.key") 384,
)

generated_loads_example :
    (load_identity toy_libs
        (λ p. after_keygen.0 p)
        (text "my.pub")
        (text "my.key")
        (text "peer.pub")
      ≡ ok (record { sig_public = 1 ∷ []; sig_secret = 2 ∷ []; peer_sig_public = 3 ∷ [] }))
    × (after_keygen.1 (text "my.key") ≡ 384)
unfolding generate_identity_files write_bytes_file sig_keypair put text bytes_eq
generated_loads_example =
    generated_loads toy_disk toy-DiskLaws toy_libs (1 ∷ []) (2 ∷ []) (text "my") (text "peer.pub")
      (3 ∷ []) empty_disk after_keygen refl refl refl refl refl
