-- ===== src/Crypto/Socket/Transport.antt =====
-- A handshake over a socket: `make_socket_transport` of crypto/src/socket.cpp under the handshake of
-- crypto/src/handshake.cpp.
use pqc_edr.Base.{
  ℕ, ◌+◌, ◌≤◌, ◌<◌, ◌≡◌, refl, sym, ap, ◌∙◌, List, [], ◌∷◌, ◌++◌, length, All, append-nil,
  append_assoc, length-append, arith,
}
use pqc_edr.Base.Words.{Bytes}
use pqc_edr.Crypto.Result.{Result, ok, err}
use pqc_edr.Crypto.Primitives.{Libs}
use pqc_edr.Crypto.Handshake.{
  Identity, Entropy, Channel, Process, attempt, send, recv, finish, run, server_new, server_start,
  server_agree, server_auth_frame, server_handshake,
}
use pqc_edr.Crypto.Handshake.Runs.{Ends, ServerRun, send_inv, recv_inv, finish_inv}
use pqc_edr.Crypto.Socket.{Sockets, SocketLaws, Run, gave, threw, ◌then_do◌, send_frame, recv_frame}
use pqc_edr.Crypto.Socket.Sending.{write_all_lem}
use pqc_edr.Crypto.Socket.Framing.{IsFrame, recv_frame_lem}

-- The stream that carries messages one after the other.
abbrev pub concat : List Bytes → Bytes
concat [] = []
concat (m ∷ ms) = m ++ concat ms

-- The frames that a side has not received when it ends.
unfoldable pub unread : Process → List Bytes → List Bytes
unread (send f p) frames = unread p frames
unread (recv p) [] = []
unread (recv p) (f ∷ frames) = unread (p f) frames
unread (finish r) frames = frames

module _ (os : Sockets) where
  -- A side with the transport of a connected socket.
  unfoldable pub over_socket : ℕ → os.Conn → Process → Run os.Conn Channel
  over_socket fuel c (send f p) = send_frame os fuel c f then_do λ _ d. over_socket fuel d p
  over_socket fuel c (recv p) = recv_frame os fuel c then_do λ f d. over_socket fuel d (p f)
  over_socket fuel c (finish (ok channel)) = gave channel c
  over_socket fuel c (finish (err e)) = threw e

module _ (os : Sockets) (laws : SocketLaws os) where
  -- A handshake that ends with the frames given one by one ends the same over a socket that carries
  -- them as one stream, whatever the sizes of the transfers: the channel is the same, the frames sent
  -- are the same, and what follows the frames is left to be read.
  pub over_socket-run :
      (fuel : ℕ) (c : os.Conn) (p : Process) (frames sent : List Bytes) (rest : Bytes)
      (channel : Channel)
      → Ends p frames channel sent
      → All IsFrame frames
      → laws.incoming c ≡ concat frames ++ rest
      → laws.patience c + (length (concat frames) + length (concat sent)) < fuel
      → (d : os.Conn) × (over_socket os fuel c p ≡ gave channel d)
        × (laws.incoming d ≡ concat (unread p frames) ++ rest)
        × (laws.outgoing d ≡ laws.outgoing c ++ concat sent)
        × (laws.patience d ≤ laws.patience c)
  unfolding over_socket unread
  over_socket-run fuel c (send f p) frames sent rest channel h fr i n =
      let (later, wrote, h') = send_inv f p frames channel sent h in
      let size : length (concat sent) ≡ length f + length (concat later) =
        ap (λ (l : List Bytes). length (concat l)) wrote ∙ length-append f (concat later) in
      let (d, r, o, j, q) = write_all_lem os laws fuel c f (omega arith) in
      let (e, r', j', o', q') =
        over_socket-run fuel d p frames later rest channel h' fr (j ∙ i) (omega arith) in
      (
        e,
        rw r r',
        j',
        o'
            ∙ ap (λ (t : Bytes). t ++ concat later) o
            ∙ append_assoc (laws.outgoing c) f (concat later)
            ∙ ap (λ (l : List Bytes). laws.outgoing c ++ concat l) (sym wrote),
        omega arith,
      )
  over_socket-run fuel c (recv p) [] sent rest channel h fr i n =
      let (f, others, received, h') = recv_inv p [] channel sent h in cc
  over_socket-run fuel c (recv p) (f ∷ frames) sent rest channel h (is_frame, fr) i n =
      let h' : Ends (p f) frames channel sent = unfold run in h in
      let size = length-append f (concat frames) in
      let (d, r, j, (k, o, q)) =
        recv_frame_lem os laws fuel c f (concat frames ++ rest) is_frame
          (i ∙ append_assoc f (concat frames) rest) (omega arith) in
      let (e, r', j', o', q') =
        over_socket-run fuel d (p f) frames sent rest channel h' fr j (omega arith) in
      (e, rw r r', j', o' ∙ ap (λ (t : Bytes). t ++ concat sent) o, omega arith)
  over_socket-run fuel c (finish (err e)) frames sent rest channel h fr i n =
      let (made, ended) = finish_inv (err e) frames channel sent h in cc
  over_socket-run fuel c (finish (ok x)) frames sent rest channel h fr i n =
      let (made, ended) = finish_inv (ok x) frames channel sent h in
      let same : x ≡ channel = cc in (c, rw same refl, i, rw (ended, append-nil) refl, omega arith)

unread-attempt {ℓ} :
    {A : Type ℓ} (call : Result A) (more : A → Process) (frames : List Bytes) (a : A)
    → call ≡ ok a
    → unread (attempt call more) frames ≡ unread (more a) frames
unread-attempt call more frames a h = rw h refl

-- The server receives two frames and no more.
pub unread-server :
    (lib : Libs) (e : Entropy) (id : Identity) (frames sent : List Bytes) (channel : Channel)
    → (r : ServerRun lib e id frames channel sent)
    → unread (server_handshake lib e id) frames ≡ r.rest
unfolding server_handshake unread
unread-server lib e id frames sent channel r =
    ap (λ (l : List Bytes). unread (server_handshake lib e id) l) r.received
    ∙ unread-attempt (server_new lib e id) _ (r.ch_frame ∷ r.ca_frame ∷ r.rest) r.x_server r.created
    ∙ unread-attempt (server_start lib e id r.x_server r.ch_frame) _ (r.ca_frame ∷ r.rest) r.st
        r.started
    ∙ unread-attempt (server_agree lib e id r.st r.ch_frame) _ (r.ca_frame ∷ r.rest) r.a r.agreed
    ∙ unread-attempt (server_auth_frame lib e id r.a) _ (r.ca_frame ∷ r.rest) r.sa_frame r.signed
