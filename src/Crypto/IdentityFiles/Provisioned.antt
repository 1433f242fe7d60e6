-- ===== src/Crypto/IdentityFiles/Provisioned.antt =====
-- Keys that the key generator writes are loaded: crypto/src/identity.cpp.
use pqc_edr.Base.{
  ℕ, ◌≡◌, ◌≢◌, get_or, refl, ap, sym, ◌∙◌, Bool, true, false, Option, none, some, [], ◌∷◌, ◌++◌,
  length, ==_iff, arith,
}
use pqc_edr.Base.Words.{Bytes}
use pqc_edr.Base.Text.{text}
use pqc_edr.Crypto.Result.{Result, ok, err, ◌>>◌, >>=-eq-ok}
use pqc_edr.Crypto.Primitives.{Libs, KeyPair, new_dsa}
use pqc_edr.Crypto.IdentityFiles.{read_bytes_file, load_identity}
use pqc_edr.Crypto.IdentityFiles.Writing.{
  Disk, DiskLaws, Step, restricted, finish_file, fill_file, write_bytes_file, then_key, write_pair,
  sig_keypair, generate_identity_files,
}

drop_prefix : (prefix s t : Bytes) → prefix ++ s ≡ prefix ++ t → s ≡ t
drop_prefix [] s t h = h
drop_prefix (c ∷ prefix) s t h = drop_prefix prefix s t (cc h)

names_differ : (prefix : Bytes) → prefix ++ text ".pub" ≢ prefix ++ text ".key"
unfolding text
names_differ prefix h =
    let e = drop_prefix prefix (text ".pub") (text ".key") h in
    let letter : ◌≡◌ {A = ℕ} 112 107 = ap (λ (t : Bytes). get_or t 1 0) e in omega arith

module _ (os : Disk) (laws : DiskLaws os) where
  -- What a write that succeeds has done.
  abbrev IsWritten : Bytes → Bytes → Bool → os.State → os.State → Type 0
  IsWritten path s restrict d e =
      (os.read e path ≡ some s)
      × ((q : Bytes) → path ≢ q → os.read e q ≡ os.read d q)
      × (restrict ≡ true → os.mode e path ≡ 384)

  restricted-inv :
      (path : Bytes) (d e : os.State) (made : Option os.State)
      → os.chmod d path 384 ≡ made
      → restricted os d made ≡ (ok tt, e)
      → ((q : Bytes) → os.read e q ≡ os.read d q) × (os.mode e path ≡ 384)
  restricted-inv path d e none m h = cc
  restricted-inv path d e (some f) m h =
      let same : f ≡ e = cc in
      rw (← same) ((λ q. laws.permitted d f path q 384 m), laws.mode_set d f path 384 m)

  finish_file-inv :
      (path : Bytes) (restrict good : Bool) (d e : os.State)
      → finish_file os path restrict good d ≡ (ok tt, e)
      → (good ≡ true)
        × ((q : Bytes) → os.read e q ≡ os.read d q)
        × (restrict ≡ true → os.mode e path ≡ 384)
  finish_file-inv path restrict false d e h = cc
  finish_file-inv path false true d e h =
      let same : d ≡ e = cc in rw (← same) (refl, (λ q. refl), (λ no_chmod. cc))
  finish_file-inv path true true d e h =
      let (reads, mode) = restricted-inv path d e (os.chmod d path 384) refl h in
      (refl, reads, (λ r. mode))

  fill_file-inv :
      (path s : Bytes) (restrict : Bool) (d e : os.State) (made : Option os.State)
      → os.open_file d path ≡ made
      → fill_file os path s restrict d made ≡ (ok tt, e)
      → IsWritten path s restrict d e
  fill_file-inv path s restrict d e none m h = cc
  fill_file-inv path s restrict d e (some f) m h =
      let done = os.write f path s in
      let (good, reads, mode) = finish_file-inv path restrict done.0 done.1 e h in
      (
        reads path ∙ laws.written f path s good,
        (λ q ne. reads q ∙ laws.others f path q s ne ∙ laws.opened d f path q m ne),
        mode,
      )

  write_bytes_file-IsWritten :
      (path s : Bytes) (restrict : Bool) (d e : os.State)
      → write_bytes_file os path s restrict d ≡ (ok tt, e)
      → IsWritten path s restrict d e
  unfolding write_bytes_file
  write_bytes_file-IsWritten path s restrict d e h =
      fill_file-inv path s restrict d e (os.open_file d path) refl h

  then_key-inv :
      (path s : Bytes) (e : os.State) (step : Step os)
      → then_key os path s step ≡ (ok tt, e)
      → (step.0 ≡ ok tt) × (write_bytes_file os path s true step.1 ≡ (ok tt, e))
  then_key-inv path s e (err why, d) h = cc
  then_key-inv path s e (ok tt, d) h = (refl, h)

  write_pair-inv :
      (prefix : Bytes) (d e : os.State) (kp : Result KeyPair)
      → write_pair os prefix d kp ≡ (ok tt, e)
      → (k : KeyPair) × (kp ≡ ok k)
        × (f : os.State) × IsWritten (prefix ++ text ".pub") k.public_key false d f
        × IsWritten (prefix ++ text ".key") k.secret_key true f e
  write_pair-inv prefix d e (err why) h = cc
  write_pair-inv prefix d e (ok k) h =
      let step = write_bytes_file os (prefix ++ text ".pub") k.public_key false d in
      let (first, second) = then_key-inv (prefix ++ text ".key") k.secret_key e step h in
      let whole : step ≡ (ok tt, step.1) = ap (λ (r : Result (Unit {0})). (r, step.1)) first in
      (
        k,
        refl,
        step.1,
        write_bytes_file-IsWritten (prefix ++ text ".pub") k.public_key false d step.1 whole,
        write_bytes_file-IsWritten (prefix ++ text ".key") k.secret_key true step.1 e second,
      )

  -- An identity that the generator has made is loaded: after it succeeds with keys of the lengths that the
  -- library gives, `load_identity` with the names of the two files and of a file that then holds a peer's
  -- public key of the right length gives these three keys, and only the owner may read and write the
  -- private key.
  pub generated_loads :
      (lib : Libs) (pk sk prefix peer_path peer : Bytes) (d e : os.State)
      → generate_identity_files os lib (some (pk, sk)) prefix d ≡ (ok tt, e)
      → length pk ≡ lib.sig_public_len
      → length sk ≡ lib.sig_secret_len
      → os.read e peer_path ≡ some peer
      → length peer ≡ lib.sig_public_len
      → (load_identity lib (os.read e) (prefix ++ text ".pub") (prefix ++ text ".key") peer_path
          ≡ ok (record { sig_public = pk; sig_secret = sk; peer_sig_public = peer }))
        × (os.mode e (prefix ++ text ".key") ≡ 384)
  unfolding generate_identity_files sig_keypair load_identity read_bytes_file
  generated_loads lib pk sk prefix peer_path peer d e h lp ls rp lq =
      let (k, made, f, pub_written, key_written) =
        write_pair-inv prefix d e (new_dsa lib >> sig_keypair os (some (pk, sk))) h in
      let (t, has_sig, made_keys) =
        >>=-eq-ok (new_dsa lib) (λ _. sig_keypair os (some (pk, sk))) made in
      let kp : k ≡ record { public_key = pk; secret_key = sk } = cc in
      let pub_read : os.read e (prefix ++ text ".pub") ≡ some pk =
        key_written.1 (prefix ++ text ".pub") (λ same. names_differ prefix (sym same))
        ∙ pub_written.0
        ∙ ap (λ (q : KeyPair). some q.public_key) kp in
      let key_read : os.read e (prefix ++ text ".key") ≡ some sk =
        key_written.0 ∙ ap (λ (q : KeyPair). some q.secret_key) kp in
      let one = (==_iff (length pk) lib.sig_public_len).1 lp in
      let two = (==_iff (length sk) lib.sig_secret_len).1 ls in
      let three = (==_iff (length peer) lib.sig_public_len).1 lq in
      (rw (has_sig, pub_read, key_read, rp, one, two, three) refl, key_written.2 refl)
