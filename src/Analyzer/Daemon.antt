-- ===== src/Analyzer/Daemon.antt =====
-- The analyzer's daemon: analyzer/src/main.cpp. One connection after the other is served; the
-- correlator and the LLM client live as long as the daemon.
-- The layout of the event in memory is the compiler's: `decode` stands for the `reinterpret_cast` and
-- `event_size` for `sizeof(security_event)`. The log lines are left out.
pub mod Service
use pqc_edr.Base.{
  ℕ, zero, suc, Bool, true, false, ltb, if◌then◌else◌, List, [], ◌∷◌, ◌++◌, Option, none, some,
  length,
}
use pqc_edr.Base.Words.{Bytes}
use pqc_edr.Crypto.Result.{Error, Result, ok, err}
use pqc_edr.Crypto.Record.{Gcm, Direction, open_record}
use pqc_edr.Crypto.Primitives.{Libs}
use pqc_edr.Crypto.Handshake.{Identity, Channel, Entropy, server_handshake}
use pqc_edr.Crypto.Socket.{Sockets, Run, waiting, threw, gave, recv_record}
use pqc_edr.Crypto.Socket.Transport.{over_socket}
use pqc_edr.Crypto.Socket.Open.{close_fd}
use pqc_edr.Event.{SecurityEvent}
use pqc_edr.Analyzer.Libc.{Libc}
use pqc_edr.Analyzer.Llm.{LlmClient}
use pqc_edr.Analyzer.Correlator.State.{Correlator}
use pqc_edr.Analyzer.Pipeline.{Outcome, classify_event}

-- How the service of a connection ended: the peer closed it, an exception was thrown, or it is still
-- being served.
pub data Ending : Type 0 where
  peer_closed still_served : Ending
  aborted : Error → Ending

-- The outcomes of the events so far, and the state that outlives the connection.
pub record Served (S : Type 0) : Type 0 where
  pub outcomes : List Outcome
  pub client : S
  pub correlator : Correlator
  pub ending : Ending

-- What the daemon is built with.
pub record Daemon (S : Type 0) : Type 1 where
  pub os : Sockets
  pub lib : Libs
  pub gcm : Gcm
  pub libc : Libc
  pub llm : LlmClient S
  pub id : Identity
  pub event_size : ℕ
  pub decode : Bytes → SecurityEvent

module _ {S : Type 0} (dm : Daemon S) where
  abbrev stopped : S → Correlator → Ending → Served S
  stopped s corr why = record { outcomes = []; client = s; correlator = corr; ending = why }

  abbrev after : Outcome → Served S → Served S
  after o rest = record rest { outcomes = o ∷ rest.outcomes }

  -- The body of the `for` loop of `serve_connection`, with what it goes on with: after the
  -- decryption, and after the reception.
  unfoldable pub take_plaintext :
      (dm.os.Conn → Direction → S → Correlator → Served S)
      → dm.os.Conn
      → S
      → Correlator
      → Result (Bytes × Direction)
      → Served S
  take_plaintext again d s corr (err e) = stopped s corr (aborted e)
  take_plaintext again d s corr (ok (pt, r)) =
      let done = classify_event dm.libc dm.llm (dm.decode pt) s corr in
      if ltb (length pt) dm.event_size
      then again d r s corr
      else after done.0.0 (again d r done.0.1 done.1)

  unfoldable pub take_record :
      (dm.os.Conn → Direction → S → Correlator → Served S)
      → Direction
      → S
      → Correlator
      → Run dm.os.Conn Bytes
      → Served S
  take_record again r s corr waiting = stopped s corr still_served
  take_record again r s corr (threw e) = stopped s corr (aborted e)
  take_record again r s corr (gave [] d) = stopped s corr peer_closed
  take_record again r s corr (gave (b ∷ bs) d) =
      take_plaintext again d s corr (open_record dm.gcm r (b ∷ bs))

  -- The loop, with the rounds that it is followed for and the fuel of each `recv_record`.
  unfoldable pub serve_loop : ℕ → ℕ → dm.os.Conn → Direction → S → Correlator → Served S
  serve_loop zero fuel c r s corr = stopped s corr still_served
  serve_loop (suc rounds) fuel c r s corr =
      take_record (serve_loop rounds fuel) r s corr (recv_record dm.os fuel c)

  -- What follows the handshake.
  unfoldable pub after_handshake : ℕ → ℕ → S → Correlator → Run dm.os.Conn Channel → Served S
  after_handshake rounds fuel s corr waiting = stopped s corr still_served
  after_handshake rounds fuel s corr (threw why) = stopped s corr (aborted why)
  after_handshake rounds fuel s corr (gave channel d) =
      serve_loop rounds fuel d channel.receiver s corr

  unfoldable pub serve_connection : ℕ → ℕ → Entropy → dm.os.Conn → S → Correlator → Served S
  serve_connection rounds fuel e c s corr =
      after_handshake rounds fuel s corr
        (over_socket dm.os fuel c (server_handshake dm.lib e dm.id))

  -- One call of `tcp_accept` and what it gives: the descriptor, the randomness of the handshake and the
  -- connection, or `none` where it throws. The loop catches what a service throws, and closes.
  abbrev pub Arrival : Type 0
  Arrival = Option (ℕ × Entropy × dm.os.Conn)

  -- The loop so far: the outcomes, the state that goes on, the descriptors that are open, and whether the
  -- loop has ended.
  pub record Looped : Type 0 where
    pub outcomes : List Outcome
    pub client : S
    pub correlator : Correlator
    pub fds : List ℕ
    pub is_over : Bool

  abbrev pub looped : S → Correlator → List ℕ → Bool → Looped
  looped s corr fds over = record {
    outcomes = [];
    client = s;
    correlator = corr;
    fds = fds;
    is_over = over;
  }

  abbrev pub after_all : List Outcome → Looped → Looped
  after_all os rest = record rest { outcomes = os ++ rest.outcomes }

  -- `if (o.once) break;`
  abbrev pub go_on : Bool → (S → Correlator → List ℕ → Looped) → S → Correlator → List ℕ → Looped
  go_on true next s corr fds = looped s corr fds true
  go_on false next s corr fds = next s corr fds

  abbrev pub close_and_go :
      Bool → (S → Correlator → List ℕ → Looped) → ℕ → List ℕ → Served S → Looped
  close_and_go once next fd fds done =
      after_all done.outcomes (go_on once next done.client done.correlator (close_fd (some fd) fds))

  -- What follows the service of the connection: nothing while it lasts, else `close_fd`, and the end with
  -- `--once` or the next turn.
  abbrev pub by_ending :
      Bool → (S → Correlator → List ℕ → Looped) → ℕ → List ℕ → Served S → Ending → Looped
  by_ending once next fd fds done still_served =
      after_all done.outcomes (looped done.client done.correlator fds false)
  by_ending once next fd fds done why = close_and_go once next fd fds done

  unfoldable pub after_service :
      Bool → (S → Correlator → List ℕ → Looped) → ℕ → List ℕ → Served S → Looped
  after_service once next fd fds done = by_ending once next fd fds done done.ending

  -- The `while` loop of `main`: whether `g_exiting` is set at its test, and what arrives.
  unfoldable pub accept_loop :
      ℕ → ℕ → Bool → List (Bool × Arrival) → S → Correlator → List ℕ → Looped
  accept_loop rounds fuel once [] s corr fds = looped s corr fds false
  accept_loop rounds fuel once ((true, a) ∷ others) s corr fds = looped s corr fds true
  accept_loop rounds fuel once ((false, none) ∷ others) s corr fds =
      go_on once (accept_loop rounds fuel once others) s corr fds
  accept_loop rounds fuel once ((false, some (fd, e, c)) ∷ others) s corr fds =
      after_service once (accept_loop rounds fuel once others) fd (fd ∷ fds)
        (serve_connection rounds fuel e c s corr)
