-- ===== src/Crypto/Socket/Stream.antt =====
-- What `read_all` of crypto/src/socket.cpp does to the stream that the peer writes, however the
-- operating system cuts the transfers.
use pqc_edr.Base.{
  ℕ, zero, suc, ◌+◌, ◌-◌, ◌≤◌, ◌<◌, ◌≡◌, refl, sym, ap, subst, ap, ◌∙◌, [], ◌∷◌, ◌++◌, Option, none,
  some, if◌then◌else◌, length, is_empty, append-nil, append_assoc, length-append, arith,
}
use pqc_edr.Base.Words.{Bytes}
use pqc_edr.Crypto.Result.{socket, recv_failed, closed_mid_message}
use pqc_edr.Crypto.Socket.{
  Sockets, SocketLaws, Received, Run, threw, gave, recv_interrupted, recv_error, received,
  read_loop,
}

module _ (os : Sockets) (laws : SocketLaws os) where
  -- A connection in which `front` has been read since `c`.
  abbrev pub HasRead : os.Conn → Bytes → os.Conn → Type 0
  HasRead c front d =
      (laws.incoming c ≡ front ++ laws.incoming d)
      × (laws.outgoing d ≡ laws.outgoing c)
      × (laws.patience d ≤ laws.patience c)

  pub read_on :
      (c d e : os.Conn) (xs ys : Bytes) → HasRead c xs d → HasRead d ys e → HasRead c (xs ++ ys) e
  read_on c d e xs ys (i, o, p) (j, q, r) =
      (rw (i, j, append_assoc xs ys (laws.incoming e)) refl, q ∙ o, omega arith)

  -- What the loop does with the answer of one more `recv`.
  abbrev answered : ℕ → ℕ → Bytes → Received os.Conn → Run os.Conn (Option Bytes)
  answered fuel n got recv_error = threw (socket recv_failed)
  answered fuel n got (recv_interrupted d) = read_loop os fuel d n got
  answered fuel n got (received [] d) =
      if is_empty got then gave none d else threw (socket closed_mid_message)
  answered fuel n got (received (b ∷ bs) d) = read_loop os fuel d n (got ++ b ∷ bs)

  read_loop-recv :
      (fuel : ℕ) (c : os.Conn) (n : ℕ) (got : Bytes)
      → length got < n
      → read_loop os (suc fuel) c n got ≡ answered fuel n got (os.recv c (n - length got))
  unfolding read_loop
  read_loop-recv fuel c n got h = ground arith

  -- A piece of no more bytes than are left is a front of them.
  piece :
      (x : ℕ) (xs front tail rest : Bytes)
      → front ++ rest ≡ (x ∷ xs) ++ tail
      → length (x ∷ xs) ≤ length front
      → (more : Bytes) × (front ≡ (x ∷ xs) ++ more) × (tail ≡ more ++ rest)
  piece x [] [] tail rest h l = absurd (omega arith)
  piece x [] (f ∷ front) tail rest h l = (front, cc, cc)
  piece x (y ∷ ys) [] tail rest h l = absurd (omega arith)
  piece x (y ∷ ys) (f ∷ front) tail rest h l =
      let same : front ++ rest ≡ (y ∷ ys) ++ tail = cc in
      let (more, e, t) = piece y ys front tail rest same (omega arith) in (more, cc, t)

  -- What a run of the loop owes: exactly the bytes that are still wanted.
  abbrev Gives : (Run os.Conn (Option Bytes)) → os.Conn → Bytes → Bytes → Bytes → Type 0
  Gives run c got front rest =
      (d : os.Conn) × (run ≡ gave (some (got ++ front)) d)
      × (laws.incoming d ≡ rest)
      × HasRead c front d

  abbrev Full : ℕ → Type 0
  Full fuel =
      (c : os.Conn) (n : ℕ) (got front rest : Bytes)
      → laws.incoming c ≡ front ++ rest
      → length got + length front ≡ n
      → laws.patience c + length front < fuel
      → Gives (read_loop os fuel c n got) c got front rest

  answered-Full :
      (fuel : ℕ) (c : os.Conn) (n : ℕ) (got : Bytes) (w : ℕ) (ws rest : Bytes)
      → Full fuel
      → laws.incoming c ≡ (w ∷ ws) ++ rest
      → length got + length (w ∷ ws) ≡ n
      → laws.patience c + length (w ∷ ws) < suc fuel
      → (r : Received os.Conn) → os.recv c (n - length got) ≡ r
      → Gives (answered fuel n got r) c got (w ∷ ws) rest
  answered-Full fuel c n got w ws rest again i l f (recv_interrupted d) h =
      let (same, out, less) = laws.recv_again c d (n - length got) h in
      let (e, r, j, (k, o, p)) = again d n got (w ∷ ws) rest (same ∙ i) l (omega arith) in
      (e, r, j, (sym same ∙ k, o ∙ out, omega arith))
  answered-Full fuel c n got w ws rest again i l f recv_error h =
      absurd (laws.recv_up c (n - length got) h)
  answered-Full fuel c n got w ws rest again i l f (received [] d) h =
      let (none_left, _) = laws.recv_end c d (n - length got) (omega arith) h in cc
  answered-Full fuel c n got w ws rest again i l f (received (b ∷ bs) d) h =
      let (fits, cut, out, p) = laws.recv_some c d (n - length got) b bs h in
      let (more, e, t) = piece b bs (w ∷ ws) (laws.incoming d) rest (sym i ∙ cut) (omega arith) in
      let size : length (w ∷ ws) ≡ length (b ∷ bs) + length more =
        ap length e ∙ length-append (b ∷ bs) more in
      let (z, r, j, read) =
        again d n (got ++ b ∷ bs) more rest t (omega (arith, length-append got (b ∷ bs)))
          (omega arith) in
      (
        z,
        r
            ∙ ap (λ (t : Bytes). gave (some t) z)
                (append_assoc got (b ∷ bs) more ∙ ap (λ (t : Bytes). got ++ t) (sym e)),
        j,
        subst (λ (t : Bytes). HasRead c t z) (sym e)
            (read_on c d z (b ∷ bs) more (cut, out, p) read),
      )

  -- The loop reads exactly the bytes that are still wanted, where the stream has them.
  pub read_loop-Full : (fuel : ℕ) → Full fuel
  read_loop-Full zero c n got front rest i l f = absurd (omega arith)
  read_loop-Full (suc fuel) c n got [] rest i l f =
      (c, unfold read_loop in rw append-nil (ground arith), i, (refl, refl, omega arith))
  read_loop-Full (suc fuel) c n got (w ∷ ws) rest i l f =
      rw (read_loop-recv fuel c n got (omega arith)) (
        answered-Full fuel c n got w ws rest (read_loop-Full fuel) i l f
          (os.recv c (n - length got)) refl)

  -- A stream that ends where a message could begin gives the `false` of `read_all`.
  abbrev Ends : ℕ → Type 0
  Ends fuel =
      (c : os.Conn) (n : ℕ)
      → laws.incoming c ≡ []
      → 0 < n
      → laws.patience c < fuel
      → (d : os.Conn) × (read_loop os fuel c n [] ≡ gave none d)

  answered-end :
      (fuel : ℕ) (c : os.Conn) (n wanted : ℕ)
      → Ends fuel
      → laws.incoming c ≡ []
      → 0 < n
      → laws.patience c < suc fuel
      → (r : Received os.Conn) → os.recv c wanted ≡ r
      → (d : os.Conn) × (answered fuel n [] r ≡ gave none d)
  answered-end fuel c n wanted again i l f recv_error h = absurd (laws.recv_up c wanted h)
  answered-end fuel c n wanted again i l f (recv_interrupted d) h =
      let (same, out, less) = laws.recv_again c d wanted h in again d n (same ∙ i) l (omega arith)
  answered-end fuel c n wanted again i l f (received [] d) h = (d, refl)
  answered-end fuel c n wanted again i l f (received (b ∷ bs) d) h =
      let (fits, cut, out, p) = laws.recv_some c d wanted b bs h in cc

  pub read_loop-end : (fuel : ℕ) → Ends fuel
  read_loop-end zero c n i l f = absurd (omega arith)
  read_loop-end (suc fuel) c n i l f =
      rw (read_loop-recv fuel c n [] l)
        (answered-end fuel c n (n - 0) (read_loop-end fuel) i l f (os.recv c (n - 0)) refl)

  -- A stream that ends inside a message makes `read_all` throw.
  abbrev Cut : ℕ → Type 0
  Cut fuel =
      (c : os.Conn) (n : ℕ) (got : Bytes)
      → length got + length (laws.incoming c) < n
      → 0 < length got + length (laws.incoming c)
      → laws.patience c + length (laws.incoming c) < fuel
      → read_loop os fuel c n got ≡ threw (socket closed_mid_message)

  answered-Cut :
      (fuel : ℕ) (c : os.Conn) (n : ℕ) (got : Bytes)
      → Cut fuel
      → length got + length (laws.incoming c) < n
      → 0 < length got + length (laws.incoming c)
      → laws.patience c + length (laws.incoming c) < suc fuel
      → (r : Received os.Conn) → os.recv c (n - length got) ≡ r
      → answered fuel n got r ≡ threw (socket closed_mid_message)
  answered-Cut fuel c n got again l some_byte f recv_error h =
      absurd (laws.recv_up c (n - length got) h)
  answered-Cut fuel c n got again l some_byte f (recv_interrupted d) h =
      let (same, out, less) = laws.recv_again c d (n - length got) h in
      let size = ap length same in again d n got (omega arith) (omega arith) (omega arith)
  answered-Cut fuel c n [] again l some_byte f (received [] d) h =
      let (left, _) = laws.recv_end c d (n - 0) (omega arith) h in
      let size = ap length left in absurd (omega arith)
  answered-Cut fuel c n (g ∷ got) again l some_byte f (received [] d) h = refl
  answered-Cut fuel c n got again l some_byte f (received (b ∷ bs) d) h =
      let (fits, cut, out, p) = laws.recv_some c d (n - length got) b bs h in
      let size : length (laws.incoming c) ≡ length (b ∷ bs) + length (laws.incoming d) =
        rw cut (length-append (b ∷ bs) (laws.incoming d)) in
      let more = length-append got (b ∷ bs) in
      again d n (got ++ b ∷ bs) (omega arith) (omega arith) (omega arith)

  pub read_loop-Cut : (fuel : ℕ) → Cut fuel
  read_loop-Cut zero c n got l some_byte f = absurd (omega arith)
  read_loop-Cut (suc fuel) c n got l some_byte f = rw (read_loop-recv fuel c n got (omega arith)) (
      answered-Cut fuel c n got (read_loop-Cut fuel) l some_byte f (os.recv c (n - length got))
        refl)
