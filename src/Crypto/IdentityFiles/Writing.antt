-- ===== src/Crypto/IdentityFiles/Writing.antt =====
-- The writing of identity files: `write_bytes_file` and `generate_identity_files` of
-- crypto/src/identity.cpp, and tools/keygen.cpp. The disk and the key generation are parameters.
use pqc_edr.Base.{
  ℕ, ◌≡◌, ◌≢◌, Bool, true, false, not, Option, none, some, List, [], ◌∷◌, ◌++◌, if◌then◌else◌,
}
use pqc_edr.Base.Words.{Bytes}
use pqc_edr.Base.Text.{text}
use pqc_edr.Crypto.Result.{Result, ok, err, ◌>>=◌, ◌>>◌, file_failed, signature_failed}
use pqc_edr.Crypto.Primitives.{Libs, KeyPair, new_dsa, or_throw}

-- An `ofstream` that truncates, whether its bytes and its close went well, and `chmod`. `read` and `mode`
-- are what a later reader of the file sees.
pub record Disk : Type 1 where
  pub State : Type 0
  pub open_file : State → Bytes → Option State
  pub write : State → Bytes → Bytes → Bool × State
  pub chmod : State → Bytes → ℕ → Option State
  pub read : State → Bytes → Option Bytes
  pub mode : State → Bytes → ℕ

-- What the documentation of these calls promises.
pub record DiskLaws (os : Disk) : Type 0 where
  pub opened :
      (d e : os.State) (p q : Bytes) → os.open_file d p ≡ some e → p ≢ q → os.read e q ≡ os.read d q
  pub written :
      (d : os.State) (p s : Bytes)
      → (os.write d p s).0 ≡ true
      → os.read (os.write d p s).1 p ≡ some s
  pub others : (d : os.State) (p q s : Bytes) → p ≢ q → os.read (os.write d p s).1 q ≡ os.read d q
  pub permitted :
      (d e : os.State) (p q : Bytes) (m : ℕ) → os.chmod d p m ≡ some e → os.read e q ≡ os.read d q
  pub mode_set : (d e : os.State) (p : Bytes) (m : ℕ) → os.chmod d p m ≡ some e → os.mode e p ≡ m

module _ (os : Disk) where
  abbrev pub Step : Type 0
  Step = Result (Unit {0}) × os.State

  abbrev pub restricted : os.State → Option os.State → Step
  restricted d none = (err file_failed, d)
  restricted d (some e) = (ok tt, e)

  -- After the file is closed.
  abbrev pub finish_file : Bytes → Bool → Bool → os.State → Step
  finish_file path restrict_perms good d =
      if not good
      then (err file_failed, d)
      else if restrict_perms
      then restricted d (os.chmod d path 384)
      else (ok tt, d)

  abbrev pub fill_file : Bytes → Bytes → Bool → os.State → Option os.State → Step
  fill_file path bytes restrict_perms d none = (err file_failed, d)
  fill_file path bytes restrict_perms d (some e) =
      let done = os.write e path bytes in finish_file path restrict_perms done.0 done.1

  unfoldable pub write_bytes_file : Bytes → Bytes → Bool → os.State → Step
  write_bytes_file path bytes restrict_perms d =
      fill_file path bytes restrict_perms d (os.open_file d path)

  abbrev pub then_key : Bytes → Bytes → Step → Step
  then_key path secret (err why, d) = (err why, d)
  then_key path secret (ok done, d) = write_bytes_file path secret true d

  abbrev pub write_pair : Bytes → os.State → Result KeyPair → Step
  write_pair prefix d (err why) = (err why, d)
  write_pair prefix d (ok kp) =
      then_key (prefix ++ text ".key") kp.secret_key
        (write_bytes_file (prefix ++ text ".pub") kp.public_key false d)

  -- `MlDsa::keypair`, given what `OQS_SIG_keypair` makes.
  unfoldable pub sig_keypair : Option (Bytes × Bytes) → Result KeyPair
  sig_keypair made = do
    (pk, sk) ← or_throw made signature_failed
    ok (record { public_key = pk; secret_key = sk })

  unfoldable pub generate_identity_files : Libs → Option (Bytes × Bytes) → Bytes → os.State → Step
  generate_identity_files lib made prefix d = write_pair prefix d (new_dsa lib >> sig_keypair made)

  -- `main` of the key generator: its exit code, for the arguments after the program's name.
  abbrev pub status_of : Step → ℕ × os.State
  status_of (err why, d) = (1, d)
  status_of (ok done, d) = (0, d)

  unfoldable pub keygen : Libs → Option (Bytes × Bytes) → List Bytes → os.State → ℕ × os.State
  keygen lib made [] d = (1, d)
  keygen lib made (prefix ∷ []) d = status_of (generate_identity_files lib made prefix d)
  keygen lib made (prefix ∷ more ∷ rest) d = (1, d)
