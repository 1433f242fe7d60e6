-- ===== src/Crypto/Socket.antt =====
-- The framing of crypto/src/socket.cpp over `send` and `recv` of the operating system, which are
-- parameters: each call may move fewer bytes than it was asked to, or be interrupted by a signal.
use pqc_edr.Base.{
  ℕ, zero, suc, ◌+◌, ◌-◌, ◌*◌, ◌≤◌, ◌<◌, ◌≡◌, List, [], ◌∷◌, ◌++◌, Option, none, some, Bool, true,
  false, ltb, if◌then◌else◌, length, drop, get_or, is_empty, bit_or,
}
use pqc_edr.Base.Words.{Bytes, join_bytes}
use pqc_edr.Crypto.Result.{
  Error, socket, send_failed, recv_failed, closed_mid_message, closed_in_handshake,
  closed_in_payload,
}
pub mod Stream
pub mod Sending
pub mod Framing
pub mod Transport
pub mod Open

-- What one `recv` answers: a negative count with `EINTR`, another negative count, or the bytes that
-- it stored. No bytes mean the end of the stream.
pub data Received (Conn : Type 0) : Type 0 where
  recv_error : Received Conn
  recv_interrupted : Conn → Received Conn
  received : Bytes → Conn → Received Conn

-- What one `send` answers: the same two, or how many bytes it took.
pub data Sent (Conn : Type 0) : Type 0 where
  send_error : Sent Conn
  send_interrupted : Conn → Sent Conn
  sent : ℕ → Conn → Sent Conn

-- The two calls, on whatever state the operating system keeps for a connection.
pub record Sockets : Type 1 where
  pub Conn : Type 0
  pub recv : Conn → ℕ → Received Conn
  pub send : Conn → Bytes → Sent Conn

-- What the documentation of stream sockets promises while the connection stays up: `incoming` are
-- the bytes that the peer writes until it closes and this side has not read, `outgoing` those that
-- this side has written, and `patience` bounds how often a signal interrupts the calls.
pub record SocketLaws (os : Sockets) : Type 0 where
  pub incoming : os.Conn → Bytes
  pub outgoing : os.Conn → Bytes
  pub patience : os.Conn → ℕ
  pub recv_again :
      (c d : os.Conn) (n : ℕ)
      → os.recv c n ≡ recv_interrupted d
      → (incoming d ≡ incoming c) × (outgoing d ≡ outgoing c) × (patience d < patience c)
  pub recv_up : (c : os.Conn) (n : ℕ) → ¬ (os.recv c n ≡ recv_error)
  pub recv_end :
      (c d : os.Conn) (n : ℕ)
      → 0 < n
      → os.recv c n ≡ received [] d
      → (incoming c ≡ []) × (incoming d ≡ [])
  pub recv_some :
      (c d : os.Conn) (n : ℕ) (b : ℕ) (bs : Bytes)
      → os.recv c n ≡ received (b ∷ bs) d
      → (length (b ∷ bs) ≤ n)
        × (incoming c ≡ (b ∷ bs) ++ incoming d)
        × (outgoing d ≡ outgoing c)
        × (patience d ≤ patience c)
  pub send_again :
      (c d : os.Conn) (p : Bytes)
      → os.send c p ≡ send_interrupted d
      → (outgoing d ≡ outgoing c) × (incoming d ≡ incoming c) × (patience d < patience c)
  pub send_up : (c : os.Conn) (p : Bytes) → ¬ (os.send c p ≡ send_error)
  pub send_some :
      (c d : os.Conn) (p : Bytes) (k : ℕ)
      → 0 < length p
      → os.send c p ≡ sent k d
      → (taken : Bytes) × (p ≡ taken ++ drop k p)
        × (length taken ≡ k)
        × (0 < k)
        × (outgoing d ≡ outgoing c ++ taken)
        × (incoming d ≡ incoming c)
        × (patience d ≤ patience c)

-- A call that has not come back within its fuel, one that threw, or one that gave a value and left
-- the connection in a state.
pub data Run {ℓ} (Conn : Type 0) (V : Type ℓ) : Type ℓ where
  waiting : Run Conn V
  threw : Error → Run Conn V
  gave : V → Conn → Run Conn V

infixl 5 ◌then_do◌
abbrev pub ◌then_do◌ {ℓ μ} :
    {Conn : Type 0} {V : Type ℓ} {W : Type μ} → Run Conn V → (V → Conn → Run Conn W) → Run Conn W
waiting then_do next = waiting
threw e then_do next = threw e
gave v c then_do next = next v c

module _ (os : Sockets) where
  -- The loop of `write_all`; `p` is what `p + sent` points at.
  unfoldable pub write_loop : ℕ → os.Conn → Bytes → Run os.Conn (Unit {0})
  write_loop zero c p = waiting
  write_loop (suc fuel) c [] = gave tt c
  write_loop (suc fuel) c (b ∷ bs) = elim (os.send c (b ∷ bs)) [
    | send_interrupted d ↦ write_loop fuel d (b ∷ bs)
    | send_error ↦ threw (socket send_failed)
    | sent k d ↦ write_loop fuel d (drop k (b ∷ bs))
  ]

  abbrev pub write_all : ℕ → os.Conn → Bytes → Run os.Conn (Unit {0})
  write_all fuel c p = write_loop fuel c p

  -- The loop of `read_all`, with the bytes that it has `got`; `none` is its `false`.
  unfoldable pub read_loop : ℕ → os.Conn → ℕ → Bytes → Run os.Conn (Option Bytes)
  read_loop zero c n got = waiting
  read_loop (suc fuel) c n got = elim (ltb (length got) n) [
    | false ↦ gave (some got) c
    | true ↦ elim (os.recv c (n - length got)) [
      | recv_interrupted d ↦ read_loop fuel d n got
      | recv_error ↦ threw (socket recv_failed)
      | received [] d ↦ if is_empty got then gave none d else threw (socket closed_mid_message)
      | received (b ∷ bs) d ↦ read_loop fuel d n (got ++ b ∷ bs)
    ]
  ]

  abbrev pub read_all : ℕ → os.Conn → ℕ → Run os.Conn (Option Bytes)
  read_all fuel c n = read_loop fuel c n []

  -- The payload that follows a header, of the length that the header names.
  unfoldable pub read_payload : ℕ → os.Conn → Error → Bytes → ℕ → Run os.Conn Bytes
  read_payload fuel c closed header len =
      if ltb 0 len
      then (read_all fuel c len then_do λ payload d. elim payload [
        | none ↦ threw closed
        | some bytes ↦ gave (header ++ bytes) d
      ])
      else gave header c

  -- `send_frame` and `recv_frame` of `make_socket_transport`
  abbrev pub send_frame : ℕ → os.Conn → Bytes → Run os.Conn (Unit {0})
  send_frame fuel c frame = write_all fuel c frame

  unfoldable pub recv_frame : ℕ → os.Conn → Run os.Conn Bytes
  unfolding read_payload
  recv_frame fuel c = read_all fuel c 4 then_do λ got d. elim got [
    | none ↦ threw (socket closed_in_handshake)
    | some header ↦
        read_payload fuel d (socket closed_in_payload) header
          (join_bytes (get_or header 2 0) (get_or header 3 0))
  ]

  abbrev pub send_record : ℕ → os.Conn → Bytes → Run os.Conn (Unit {0})
  send_record fuel c rec = write_all fuel c rec

  unfoldable pub recv_record : ℕ → os.Conn → Run os.Conn Bytes
  unfolding read_payload
  recv_record fuel c = read_all fuel c 2 then_do λ got d. elim got [
    | none ↦ gave [] d
    | some header ↦
        read_payload fuel d (socket closed_in_payload) header
          (join_bytes (get_or header 0 0) (get_or header 1 0))
  ]
