-- ===== src/Analyzer/Daemon/Service.antt =====
-- What the daemon of analyzer/src/main.cpp does with a connection, from the bytes on the socket to
-- the classified events.
use pqc_edr.Base.{
  ℕ, zero, suc, ◌+◌, ◌<◌, ◌≡◌, refl, sym, ap, ◌∙◌, Bool, false, ltb, if◌then◌else◌, Bool-cases, inl,
  inr, List, [], ◌∷◌, ◌++◌, some, length, All, length-append, append-nil, arith,
}
use pqc_edr.Base.Words.{Bytes}
use pqc_edr.Crypto.Result.{Error, Result, ok, >>=-eq-ok}
use pqc_edr.Crypto.Record.{Direction, open_record}
use pqc_edr.Crypto.Record.Stream.{open_all, seal_all}
use pqc_edr.Crypto.Handshake.{Identity, Channel, Entropy, client_handshake, server_handshake, run}
use pqc_edr.Crypto.Handshake.Laws.{AgreementLaws}
use pqc_edr.Crypto.Handshake.Delivery.{channel_delivers}
use pqc_edr.Crypto.Record.Laws.{GcmLaws}
use pqc_edr.Crypto.Handshake.Runs.{Ends, server_run}
use pqc_edr.Crypto.Socket.{SocketLaws, gave, threw, recv_record}
use pqc_edr.Crypto.Socket.Framing.{
  IsRecord, IsFrame, open_record-IsRecord, recv_record_lem, recv_record-end,
}
use pqc_edr.Crypto.Socket.Transport.{concat, over_socket, over_socket-run, unread-server}
use pqc_edr.Event.{SecurityEvent}
use pqc_edr.Analyzer.Correlator.State.{Correlator}
use pqc_edr.Analyzer.Pipeline.{Outcome, classify_all}
use pqc_edr.Analyzer.Daemon.{
  Daemon, Served, peer_closed, take_record, take_plaintext, serve_loop, after_handshake,
  serve_connection, Arrival, after_service, accept_loop,
}
use pqc_edr.Crypto.Socket.Open.{close_fd, close_newest}

module _ {S : Type 0} (dm : Daemon S) where
  -- The events in a sequence of plaintexts: the short ones are skipped.
  abbrev pub events_of : List Bytes → List SecurityEvent
  events_of [] = []
  events_of (p ∷ ps) =
      if ltb (length p) dm.event_size then events_of ps else dm.decode p ∷ events_of ps

  abbrev classified : List Bytes → S → Correlator → List Outcome × S × Correlator
  classified ps s corr = classify_all dm.libc dm.llm (events_of ps) s corr

  abbrev pub served : (List Outcome × S × Correlator) → Served S
  served r = record { outcomes = r.0; client = r.1; correlator = r.2; ending = peer_closed }

  -- One round of the loop with a record that opens.
  one_round :
      (rounds fuel : ℕ) (c d : dm.os.Conn) (r r' : Direction) (s : S) (corr : Correlator)
      (rec pt : Bytes) (pts : List Bytes)
      → IsRecord rec
      → recv_record dm.os fuel c ≡ gave rec d
      → open_record dm.gcm r rec ≡ ok (pt, r')
      → ((s' : S) (corr' : Correlator)
          → serve_loop dm rounds fuel d r' s' corr' ≡ served (classified pts s' corr'))
      → serve_loop dm (suc rounds) fuel c r s corr ≡ served (classified (pt ∷ pts) s corr)
  unfolding serve_loop take_record take_plaintext classify_all
  one_round rounds fuel c d r r' s corr rec pt pts (hi, lo, payload, shape, exact) got opened
        later =
      let got' : recv_record dm.os fuel c ≡ gave (hi ∷ lo ∷ payload) d = rw shape at got in
      let opened' : open_record dm.gcm r (hi ∷ lo ∷ payload) ≡ ok (pt, r') = rw shape at opened in
      rw (got', opened')
        (elim (Bool-cases (ltb (length pt) dm.event_size)) [
          | inl short ↦ rw short (later s corr)
          | inr long ↦ rw (long, later) refl
        ])

  -- The events that are not short go through the pipeline one after the other.
  pub serve_loop_lem :
      (laws : SocketLaws dm.os) (rounds fuel : ℕ) (c : dm.os.Conn) (r t : Direction) (s : S)
      (corr : Correlator) (recs ps : List Bytes)
      → open_all dm.gcm r recs ≡ ok (ps, t)
      → laws.incoming c ≡ concat recs
      → length recs < rounds
      → laws.patience c + length (concat recs) < fuel
      → serve_loop dm rounds fuel c r s corr ≡ served (classified ps s corr)
  unfolding serve_loop take_record classify_all
  serve_loop_lem laws zero fuel c r t s corr recs ps h i n f = absurd (omega arith)
  serve_loop_lem laws (suc rounds) fuel c r t s corr [] ps h i n f =
      let none_left : ps ≡ [] = cc in
      let (d, e) = recv_record-end dm.os laws fuel c i (omega arith) in rw (e, none_left) refl
  serve_loop_lem laws (suc rounds) fuel c r t s corr (rec ∷ recs) ps h i n f =
      let ((pt, r'), first, h1) = >>=-eq-ok (open_record dm.gcm r rec) _ h in
      let ((pts, u), others, h2) = >>=-eq-ok (open_all dm.gcm r' recs) _ h1 in
      let last : ◌≡◌ {A = Result (List Bytes × Direction)} (ok (pt ∷ pts, u)) (ok (ps, t)) = h2 in
      let whole : ps ≡ pt ∷ pts = cc in
      let form = open_record-IsRecord dm.gcm r rec (pt, r') first in
      let size = length-append rec (concat recs) in
      let (d, e, j, (k, o, q)) =
        recv_record_lem dm.os laws fuel c rec (concat recs) form i (omega arith) in
      one_round rounds fuel c d r r' s corr rec pt pts form e first (λ s' corr'.
        serve_loop_lem laws rounds fuel d r' u s' corr' recs pts others j (omega arith)
          (omega arith))
      ∙ ap (λ (l : List Bytes). served (classified l s corr)) (sym whole)

  -- A connection whose bytes are the two frames of a handshake that the server completes and the
  -- records of a run: every event is classified, and the service ends as the peer closes.
  pub serve_connection_lem :
      (laws : SocketLaws dm.os) (rounds fuel : ℕ) (e : Entropy) (c : dm.os.Conn) (s : S)
      (corr : Correlator) (ch_frame ca_frame : Bytes) (sent recs ps : List Bytes)
      (channel : Channel) (t : Direction)
      → Ends (server_handshake dm.lib e dm.id) (ch_frame ∷ ca_frame ∷ []) channel sent
      → All IsFrame (ch_frame ∷ ca_frame ∷ [])
      → open_all dm.gcm channel.receiver recs ≡ ok (ps, t)
      → laws.incoming c ≡ concat (ch_frame ∷ ca_frame ∷ []) ++ concat recs
      → length recs < rounds
      → laws.patience c + (length (laws.incoming c) + length (concat sent)) < fuel
      → serve_connection dm rounds fuel e c s corr ≡ served (classified ps s corr)
  unfolding serve_connection after_handshake
  serve_connection_lem laws rounds fuel e c s corr ch_frame ca_frame sent recs ps channel t h fr
        opened i n f =
      let frames : List Bytes = ch_frame ∷ ca_frame ∷ [] in
      let r = server_run dm.lib e dm.id frames channel sent h in
      let received : frames ≡ r.ch_frame ∷ r.ca_frame ∷ r.rest = r.received in
      let no_rest : r.rest ≡ [] = cc in
      let all_read = unread-server dm.lib e dm.id frames sent channel r ∙ no_rest in
      let size = ap length i ∙ length-append (concat frames) (concat recs) in
      let (d, done, j, o, q) =
        over_socket-run dm.os laws fuel c (server_handshake dm.lib e dm.id) frames sent
          (concat recs) channel h fr i (omega arith) in
      let left : laws.incoming d ≡ concat recs =
        j ∙ ap (λ (l : List Bytes). concat l ++ concat recs) all_read in
      rw done (
        serve_loop_lem laws rounds fuel d channel.receiver t s corr recs ps opened left n
          (omega arith))

  -- Without `--once`, a connection whose handshake throws leaves the daemon as it was, its descriptor
  -- closed: the connections after it are served as if it had not come.
  pub refused_connection :
      (rounds fuel fd : ℕ) (e : Entropy) (c : dm.os.Conn) (why : Error)
      (others : List (Bool × Arrival dm)) (s : S) (corr : Correlator) (fds : List ℕ)
      → over_socket dm.os fuel c (server_handshake dm.lib e dm.id) ≡ threw why
      → accept_loop dm rounds fuel false ((false, some (fd, e, c)) ∷ others) s corr fds
        ≡ accept_loop dm rounds fuel false others s corr fds
  unfolding accept_loop after_service serve_connection after_handshake close_fd
  refused_connection rounds fuel fd e c why others s corr fds h = rw (h, close_newest) refl

-- An agent and the analyzer that complete the handshake with each other's frames: whatever the agent
-- seals, the analyzer classifies exactly those events, in the order in which they were sealed, then
-- sees the connection close. The socket stays up but may cut and interrupt the transfers at will; the
-- primitives are as `AgreementLaws` and `GcmLaws` say, and the fuel exceeds the bytes that are moved.
pub sealed_events_classified :
    {S : Type 0} (dm : Daemon S) (laws : SocketLaws dm.os) (agree : AgreementLaws dm.lib)
    (gcm : GcmLaws dm.gcm) (rounds fuel : ℕ) (e f : Entropy) (agent : Identity)
    (ch_frame sh_frame sa_frame ca_frame : Bytes) (c d : Channel) (plain recs : List Bytes)
    (t : Direction) (conn : dm.os.Conn) (s : S) (corr : Correlator)
    → run (client_handshake dm.lib e agent) (sh_frame ∷ sa_frame ∷ [])
      ≡ (ok c, ch_frame ∷ ca_frame ∷ [])
    → run (server_handshake dm.lib f dm.id) (ch_frame ∷ ca_frame ∷ [])
      ≡ (ok d, sh_frame ∷ sa_frame ∷ [])
    → All IsFrame (ch_frame ∷ ca_frame ∷ [])
    → seal_all dm.gcm c.sender plain ≡ ok (recs, t)
    → laws.incoming conn ≡ concat (ch_frame ∷ ca_frame ∷ []) ++ concat recs
    → length recs < rounds
    → laws.patience conn + (length (laws.incoming conn) + length (sh_frame ++ sa_frame)) < fuel
    → serve_connection dm rounds fuel f conn s corr
      ≡ served dm (classify_all dm.libc dm.llm (events_of dm plain) s corr)
sealed_events_classified dm laws agree gcm rounds fuel e f agent ch_frame sh_frame sa_frame ca_frame
      c d plain recs t conn s corr hc hd fr sealed i n enough =
    let opened =
      channel_delivers dm.lib agree dm.gcm gcm e f agent dm.id ch_frame sh_frame sa_frame ca_frame c
        d plain recs t hc hd sealed in
    serve_connection_lem dm laws rounds fuel f conn s corr ch_frame ca_frame
      (sh_frame ∷ sa_frame ∷ []) recs plain d t hd fr opened i n (rw append-nil enough)
