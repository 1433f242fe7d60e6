-- ===== src/Tests/Wire.antt =====
-- An operating system that moves one byte in a call and interrupts the first calls, with the laws
-- that crypto/src/socket.cpp relies on.
use pqc_edr.Base.{ℕ, zero, suc, ◌≤◌, ◌<◌, ◌≡◌, refl, sym, ap, [], ◌∷◌, ◌++◌, length, drop, arith}
use pqc_edr.Base.Words.{Bytes}
use pqc_edr.Crypto.Socket.{
  Sockets, SocketLaws, Received, Sent, recv_interrupted, recv_error, received, send_interrupted,
  send_error, sent,
}

pub record Wire : Type 0 where
  pub inward : Bytes
  pub outward : Bytes
  pub signals : ℕ

abbrev pub recv_of : ℕ → Bytes → Bytes → ℕ → Received Wire
recv_of (suc k) inn out n = recv_interrupted (record { inward = inn; outward = out; signals = k })
recv_of zero inn out zero = received [] (record { inward = inn; outward = out; signals = 0 })
recv_of zero [] out (suc n) = received [] (record { inward = []; outward = out; signals = 0 })
recv_of zero (b ∷ bs) out (suc n) =
    received (b ∷ []) (record { inward = bs; outward = out; signals = 0 })

abbrev pub send_of : ℕ → Bytes → Bytes → Bytes → Sent Wire
send_of (suc k) inn out p = send_interrupted (record { inward = inn; outward = out; signals = k })
send_of zero inn out [] = sent 0 (record { inward = inn; outward = out; signals = 0 })
send_of zero inn out (b ∷ bs) =
    sent 1 (record { inward = inn; outward = out ++ b ∷ []; signals = 0 })

abbrev pub toy_os : Sockets
toy_os = record {
  Conn = Wire;
  recv = λ c n. recv_of c.signals c.inward c.outward n;
  send = λ c p. send_of c.signals c.inward c.outward p;
}

pub recv_of_again :
    (k : ℕ) (inn out : Bytes) (n : ℕ) (d : Wire)
    → recv_of k inn out n ≡ recv_interrupted d
    → (d.inward ≡ inn) × (d.outward ≡ out) × (d.signals < k)
recv_of_again (suc k) inn out n d h =
    let e : ◌≡◌ {A = Wire} (record { inward = inn; outward = out; signals = k }) d = cc in
    (
      sym (ap (λ (w : Wire). w.inward) e),
      sym (ap (λ (w : Wire). w.outward) e),
      omega (arith, ap (λ (w : Wire). w.signals) e),
    )
recv_of_again zero inn out zero d h = cc
recv_of_again zero [] out (suc n) d h = cc
recv_of_again zero (b ∷ bs) out (suc n) d h = cc

pub recv_of_end :
    (k : ℕ) (inn out : Bytes) (n : ℕ) (d : Wire)
    → 0 < n
    → recv_of k inn out n ≡ received [] d
    → (inn ≡ []) × (d.inward ≡ [])
recv_of_end (suc k) inn out n d l h = cc
recv_of_end zero inn out zero d l h = absurd (omega arith)
recv_of_end zero [] out (suc n) d l h = ground arith
recv_of_end zero (b ∷ bs) out (suc n) d l h = cc

pub recv_of_some :
    (k : ℕ) (inn out : Bytes) (n : ℕ) (d : Wire) (b : ℕ) (bs : Bytes)
    → recv_of k inn out n ≡ received (b ∷ bs) d
    → (length (b ∷ bs) ≤ n) × (inn ≡ (b ∷ bs) ++ d.inward) × (d.outward ≡ out) × (d.signals ≤ k)
recv_of_some (suc k) inn out n d b bs h = cc
recv_of_some zero inn out zero d b bs h = cc
recv_of_some zero [] out (suc n) d b bs h = cc
recv_of_some zero (x ∷ xs) out (suc n) d b bs h =
    let e : ◌≡◌ {A = Wire} (record { inward = xs; outward = out; signals = 0 }) d = cc in
    let empty : bs ≡ [] = cc in
    let size = ap length empty in
    (
      omega arith,
      rw (empty, ← e) cc,
      sym (ap (λ (w : Wire). w.outward) e),
      omega (arith, ap (λ (w : Wire). w.signals) e),
    )

pub send_of_some :
    (k : ℕ) (inn out p : Bytes) (d : Wire) (n : ℕ)
    → 0 < length p
    → send_of k inn out p ≡ sent n d
    → (taken : Bytes) × (p ≡ taken ++ drop n p)
      × (length taken ≡ n)
      × (0 < n)
      × (d.outward ≡ out ++ taken)
      × (d.inward ≡ inn)
      × (d.signals ≤ k)
send_of_some (suc k) inn out p d n l h = cc
send_of_some zero inn out [] d n l h = absurd (omega arith)
send_of_some zero inn out (x ∷ xs) d n l h =
    let e : ◌≡◌ {A = Wire} (record { inward = inn; outward = out ++ x ∷ []; signals = 0 }) d = cc in
    let one : n ≡ 1 = cc in
    (
      x ∷ [],
      rw one refl,
      omega arith,
      omega arith,
      sym (ap (λ (w : Wire). w.outward) e),
      sym (ap (λ (w : Wire). w.inward) e),
      omega (arith, ap (λ (w : Wire). w.signals) e),
    )

pub send_of_again :
    (k : ℕ) (inn out p : Bytes) (d : Wire)
    → send_of k inn out p ≡ send_interrupted d
    → (d.outward ≡ out) × (d.inward ≡ inn) × (d.signals < k)
send_of_again (suc k) inn out p d h =
    let e : ◌≡◌ {A = Wire} (record { inward = inn; outward = out; signals = k }) d = cc in
    (
      sym (ap (λ (w : Wire). w.outward) e),
      sym (ap (λ (w : Wire). w.inward) e),
      omega (arith, ap (λ (w : Wire). w.signals) e),
    )
send_of_again zero inn out [] d h = cc
send_of_again zero inn out (b ∷ bs) d h = cc

pub recv_of_up : (k : ℕ) (inn out : Bytes) (n : ℕ) → ¬ (recv_of k inn out n ≡ recv_error)
recv_of_up (suc k) inn out n h = cc
recv_of_up zero inn out zero h = cc
recv_of_up zero [] out (suc n) h = cc
recv_of_up zero (b ∷ bs) out (suc n) h = cc

pub send_of_up : (k : ℕ) (inn out p : Bytes) → ¬ (send_of k inn out p ≡ send_error)
send_of_up (suc k) inn out p h = cc
send_of_up zero inn out [] h = cc
send_of_up zero inn out (b ∷ bs) h = cc

abbrev pub toy_socket : SocketLaws toy_os
toy_socket = record {
  incoming = λ c. c.inward;
  outgoing = λ c. c.outward;
  patience = λ c. c.signals;
  recv_again = λ c d n h. recv_of_again c.signals c.inward c.outward n d h;
  recv_up = λ c n h. recv_of_up c.signals c.inward c.outward n h;
  recv_end = λ c d n l h. recv_of_end c.signals c.inward c.outward n d l h;
  recv_some = λ c d n b bs h. recv_of_some c.signals c.inward c.outward n d b bs h;
  send_again = λ c d p h. send_of_again c.signals c.inward c.outward p d h;
  send_up = λ c p h. send_of_up c.signals c.inward c.outward p h;
  send_some = λ c d p k l h. send_of_some c.signals c.inward c.outward p d k l h;
}
