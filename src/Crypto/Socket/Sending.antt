-- ===== src/Crypto/Socket/Sending.antt =====
-- What `write_all` of crypto/src/socket.cpp does to the stream that this side writes.
use pqc_edr.Base.{
  ℕ, zero, suc, ◌+◌, ◌≤◌, ◌<◌, ◌≡◌, refl, sym, ap, ap, ◌∙◌, [], ◌∷◌, ◌++◌, length, drop, append-nil,
  append_assoc, length-append, arith,
}
use pqc_edr.Base.Words.{Bytes}
use pqc_edr.Crypto.Result.{socket, send_failed}
use pqc_edr.Crypto.Socket.{
  Sockets, SocketLaws, Run, threw, gave, Sent, send_interrupted, send_error, sent, write_loop,
}

module _ (os : Sockets) (laws : SocketLaws os) where
  -- What a run of `write_all` owes: the whole text appended to what was written before.
  abbrev Writes : ℕ → Type 0
  Writes fuel =
      (c : os.Conn) (p : Bytes)
      → laws.patience c + length p < fuel
      → (d : os.Conn) × (write_loop os fuel c p ≡ gave tt d)
        × (laws.outgoing d ≡ laws.outgoing c ++ p)
        × (laws.incoming d ≡ laws.incoming c)
        × (laws.patience d ≤ laws.patience c)

  abbrev took : ℕ → Bytes → Sent os.Conn → Run os.Conn (Unit {0})
  took fuel p send_error = threw (socket send_failed)
  took fuel p (send_interrupted d) = write_loop os fuel d p
  took fuel p (sent k d) = write_loop os fuel d (drop k p)

  took-all :
      (fuel : ℕ) (c : os.Conn) (p : Bytes)
      → Writes fuel
      → laws.patience c + length p < suc fuel
      → 0 < length p
      → (r : Sent os.Conn) → os.send c p ≡ r
      → (d : os.Conn) × (took fuel p r ≡ gave tt d)
        × (laws.outgoing d ≡ laws.outgoing c ++ p)
        × (laws.incoming d ≡ laws.incoming c)
        × (laws.patience d ≤ laws.patience c)
  took-all fuel c p again f l send_error h = absurd (laws.send_up c p h)
  took-all fuel c p again f l (send_interrupted d) h =
      let (same, inn, less) = laws.send_again c d p h in
      let (e, r, o, i, q) = again d p (omega arith) in
      (e, r, o ∙ ap (λ (t : Bytes). t ++ p) same, i ∙ inn, omega arith)
  took-all fuel c p again f l (sent k d) h =
      let (front, cut, size, moved, out, inn, less) = laws.send_some c d p k l h in
      let whole : length p ≡ length front + length (drop k p) =
        ap length cut ∙ length-append front (drop k p) in
      let (e, r, o, i, q) = again d (drop k p) (omega arith) in
      (
        e,
        r,
        (o
            ∙ ap (λ (t : Bytes). t ++ drop k p) out
            ∙ append_assoc (laws.outgoing c) front (drop k p)
            ∙ ap (λ (t : Bytes). laws.outgoing c ++ t) (sym cut)),
        i ∙ inn,
        omega arith,
      )

  -- On a connection that stays up, as `SocketLaws` says, where `send` never fails and is interrupted at
  -- most `patience` times, and with more fuel than the interruptions and the bytes to write, `write_all`
  -- comes back and has written exactly what it was given, whatever the sizes of the pieces that the
  -- operating system takes; what is still to be read stays.
  pub write_all_lem : (fuel : ℕ) → Writes fuel
  unfolding write_loop
  write_all_lem zero c p f = absurd (omega arith)
  write_all_lem (suc fuel) c [] f = (c, refl, rw append-nil refl, refl, omega arith)
  write_all_lem (suc fuel) c (b ∷ bs) f =
      took-all fuel c (b ∷ bs) (write_all_lem fuel) f (omega arith) (os.send c (b ∷ bs)) refl
