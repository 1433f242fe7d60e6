-- ===== src/Crypto/Socket/Framing.antt =====
-- Whole messages over a stream: `recv_frame` and `recv_record` of crypto/src/socket.cpp, and the
-- records of crypto/src/record.cpp that they carry.
use pqc_edr.Base.{
  append-nil, ℕ, ◌+◌, ◌<◌, ◌≡◌, refl, ap, ◌∙◌, [], ◌∷◌, ◌++◌, none, some, length, is_empty, get_or,
  if◌then◌else◌, arith,
}
use pqc_edr.Base.Words.{Bytes, join_bytes}
use pqc_edr.Crypto.Result.{
  Error, socket, ok, closed_in_payload, closed_in_handshake, closed_mid_message,
}
use pqc_edr.Crypto.Record.{Gcm, Direction, open_record}
use pqc_edr.Crypto.Socket.{
  Sockets, SocketLaws, Run, gave, threw, ◌then_do◌, read_all, read_payload, recv_record, recv_frame,
}
use pqc_edr.Crypto.Socket.Stream.{HasRead, read_on, read_loop-Full, read_loop-end, read_loop-Cut}

-- A record whose first two bytes are the length of the rest, and a frame whose third and fourth are.
abbrev pub IsRecord : Bytes → Type 0
IsRecord rec =
    (hi lo : ℕ) × (payload : Bytes) × (rec ≡ hi ∷ lo ∷ payload)
    × (length payload ≡ join_bytes hi lo)

abbrev pub IsFrame : Bytes → Type 0
IsFrame frame =
    (type version hi lo : ℕ) × (payload : Bytes) × (frame ≡ type ∷ version ∷ hi ∷ lo ∷ payload)
    × (length payload ≡ join_bytes hi lo)

-- What the receiver of the record layer accepts is a record of that form.
pub open_record-IsRecord :
    (g : Gcm) (s : Direction) (rec : Bytes) (x : Bytes × Direction)
    → open_record g s rec ≡ ok x
    → IsRecord rec
unfolding open_record
open_record-IsRecord g s [] x h = absurd (ground arith)
open_record-IsRecord g s (hi ∷ []) x h = absurd (ground arith)
open_record-IsRecord g s (hi ∷ lo ∷ payload) x h = (hi, lo, payload, refl, ground arith)

module _ (os : Sockets) (laws : SocketLaws os) where
  -- One message read: the value, the stream after it, and how far the connection went.
  abbrev pub Gives {ℓ} : {V : Type ℓ} → Run os.Conn V → os.Conn → V → Bytes → Bytes → Type ℓ
  Gives run c v front rest =
      (d : os.Conn) × (run ≡ gave v d) × (laws.incoming d ≡ rest) × HasRead os laws c front d

  read_payload_lem :
      (fuel : ℕ) (c : os.Conn) (closed : Error) (header payload rest : Bytes) (len : ℕ)
      → length payload ≡ len
      → laws.incoming c ≡ payload ++ rest
      → laws.patience c + length payload < fuel
      → Gives (read_payload os fuel c closed header len) c (header ++ payload) payload rest
  unfolding read_payload
  read_payload_lem fuel c closed header [] rest len n i f =
      (c, rw append-nil (ground arith), i, (refl, refl, omega arith))
  read_payload_lem fuel c closed header (b ∷ bs) rest len n i f =
      let (d, r, j, read) =
        read_loop-Full os laws fuel c len [] (b ∷ bs) rest i (omega arith) (omega arith) in
      (d, ground (arith, r), j, read)

  -- A header of a fixed size and the payload whose length it names.
  abbrev message :
      ℕ → os.Conn → ℕ → Error → (Bytes → ℕ) → (os.Conn → Run os.Conn Bytes) → Run os.Conn Bytes
  message fuel c size closed len at_end = read_all os fuel c size then_do λ got d. elim got [
    | none ↦ at_end d
    | some header ↦ read_payload os fuel d closed header (len header)
  ]

  message_lem :
      (fuel : ℕ) (c : os.Conn) (size : ℕ) (closed : Error) (len : Bytes → ℕ)
      (at_end : os.Conn → Run os.Conn Bytes) (header payload rest : Bytes)
      → length header ≡ size
      → length payload ≡ len header
      → laws.incoming c ≡ header ++ (payload ++ rest)
      → laws.patience c + (length header + length payload) < fuel
      → Gives (message fuel c size closed len at_end) c (header ++ payload) (header ++ payload) rest
  message_lem fuel c size closed len at_end header payload rest hs hp i f =
      let (d, r, j, read) =
        read_loop-Full os laws fuel c size [] header (payload ++ rest) i (omega arith)
          (omega arith) in
      let (e, r', j', read') =
        read_payload_lem fuel d closed header payload rest (len header) hp j (omega arith) in
      (e, rw r r', j', read_on os laws c d e header payload read read')

  -- `recv_record` gives exactly the next record of the stream, and leaves what follows it.
  pub recv_record_lem :
      (fuel : ℕ) (c : os.Conn) (rec rest : Bytes)
      → IsRecord rec
      → laws.incoming c ≡ rec ++ rest
      → laws.patience c + length rec < fuel
      → Gives (recv_record os fuel c) c rec rec rest
  unfolding recv_record
  recv_record_lem fuel c rec rest (hi, lo, payload, e, n) i f = rw e (
      message_lem fuel c 2 (socket closed_in_payload)
        (λ header. join_bytes (get_or header 0 0) (get_or header 1 0)) (gave []) (hi ∷ lo ∷ [])
        payload rest refl n (i ∙ ap (λ (t : Bytes). t ++ rest) e)
        (let l = ap length e in omega arith))

  pub recv_record-end :
      (fuel : ℕ) (c : os.Conn)
      → laws.incoming c ≡ []
      → laws.patience c < fuel
      → (d : os.Conn) × (recv_record os fuel c ≡ gave [] d)
  unfolding recv_record
  recv_record-end fuel c i f =
      let (d, r) = read_loop-end os laws fuel c 2 i (omega arith) f in (d, rw r refl)

  -- `recv_frame` gives exactly the next frame of the stream, and leaves what follows it.
  pub recv_frame_lem :
      (fuel : ℕ) (c : os.Conn) (frame rest : Bytes)
      → IsFrame frame
      → laws.incoming c ≡ frame ++ rest
      → laws.patience c + length frame < fuel
      → Gives (recv_frame os fuel c) c frame frame rest
  unfolding recv_frame
  recv_frame_lem fuel c frame rest (type, version, hi, lo, payload, e, n) i f = rw e (
      message_lem fuel c 4 (socket closed_in_payload)
        (λ header. join_bytes (get_or header 2 0) (get_or header 3 0))
        (λ d. threw (socket closed_in_handshake)) (type ∷ version ∷ hi ∷ lo ∷ []) payload rest refl
        n (i ∙ ap (λ (t : Bytes). t ++ rest) e) (let l = ap length e in omega arith))

  read_payload-cut :
      (fuel : ℕ) (c : os.Conn) (header payload : Bytes) (len : ℕ)
      → laws.incoming c ≡ payload
      → length payload < len
      → laws.patience c + length payload < fuel
      → read_payload os fuel c (socket closed_in_payload) header len
        ≡ threw (socket (if is_empty payload then closed_in_payload else closed_mid_message))
  unfolding read_payload
  read_payload-cut fuel c header [] len i short f =
      let (d, r) = read_loop-end os laws fuel c len i short (omega arith) in ground (arith, r)
  read_payload-cut fuel c header (b ∷ bs) len i short f =
      let size = ap length i in
      let r = read_loop-Cut os laws fuel c len [] (omega arith) (omega arith) (omega arith) in
      ground (arith, r)

  -- A connection that ends inside a record is never taken for the end of the records: `recv_record`
  -- throws, wherever the cut is.
  pub recv_record-cut :
      (fuel : ℕ) (c : os.Conn) (hi lo : ℕ) (payload : Bytes)
      → laws.incoming c ≡ hi ∷ lo ∷ payload
      → length payload < join_bytes hi lo
      → laws.patience c + length (laws.incoming c) < fuel
      → recv_record os fuel c
        ≡ threw (socket (if is_empty payload then closed_in_payload else closed_mid_message))
  unfolding recv_record
  recv_record-cut fuel c hi lo payload i short f =
      let (d, r, j, (k, o, p)) =
        read_loop-Full os laws fuel c 2 [] (hi ∷ lo ∷ []) payload i refl
          (let l = ap length i in omega arith) in
      rw r (
        read_payload-cut fuel d (hi ∷ lo ∷ []) payload (join_bytes hi lo) j short
          (let l = ap length i in omega arith))
