-- ===== src/Agent/Main.antt =====
-- The run of the agent: `on_event`, `run_synthetic`, `make_forward_sink` and `main` of agent/src/main.cpp.
-- A sink is the function by which it handles an event. What libbpf, the clock and the operating system
-- answer are arguments.
pub mod Recorded
use pqc_edr.Base.{
  ℕ, Bool, true, false, not, Option, none, some, List, [], ◌∷◌, ◌++◌, ltb, is_empty, if◌then◌else◌,
}
use pqc_edr.Base.Words.{Bytes}
use pqc_edr.Base.Text.{text}
use pqc_edr.Crypto.Result.{Result, ok, err}
use pqc_edr.Crypto.Record.{Direction}
use pqc_edr.Crypto.Primitives.{Libs}
use pqc_edr.Crypto.Handshake.{Identity, Channel, Entropy, client_handshake}
use pqc_edr.Crypto.IdentityFiles.{load_identity}
use pqc_edr.Crypto.Socket.{Sockets, Run, waiting, threw, gave}
use pqc_edr.Crypto.Socket.Transport.{over_socket}
use pqc_edr.Event.{SecurityEvent}
use pqc_edr.Agent.ChannelSink.{ChannelSink, new_sink}
use pqc_edr.Agent.Options.{Options}
use pqc_edr.Agent.Replay.{Clock}
use pqc_edr.Agent.Synthetic.{syn_execve, syn_tcp}

-- What `main` builds of the options: the sink, and where the events come from.
pub data SinkKind : Type 0 where
  forwarding printing : SinkKind
  recording : Bytes → SinkKind

pub data Source : Type 0 where
  made_up collector : Source
  replaying : Bytes → Source

unfoldable pub sink_of : Options → SinkKind
sink_of o =
    if o.forward
    then forwarding
    else if not (is_empty o.record_file)
    then recording o.record_file
    else printing

unfoldable pub source_of : Options → Source
source_of o =
    if o.synthetic
    then made_up
    else if not (is_empty o.replay_file)
    then replaying o.replay_file
    else collector

-- Which of the steps of `main` succeed: the sink, the synthetic or replayed events, and the three calls
-- that set the collector up.
pub record Steps : Type 0 where
  pub sink_made : Bool
  pub source_done : Bool
  pub loaded : Bool
  pub attached : Bool
  pub buffered : Bool

abbrev pub collector_status : Steps → ℕ
collector_status s =
    if not s.loaded then 1 else if not s.attached then 1 else if not s.buffered then 1 else 0

abbrev pub source_status : Source → Steps → ℕ
source_status collector s = collector_status s
source_status made_up s = if s.source_done then 0 else 1
source_status (replaying path) s = if s.source_done then 0 else 1

unfoldable pub exit_status : Options → Steps → ℕ
exit_status o s = if not s.sink_made then 1 else source_status (source_of o) s

-- A sample of the ring buffer: its size, and the event that its bytes are.
abbrev pub Sample : Type 0
Sample = ℕ × SecurityEvent

-- What a `ring_buffer__poll` does: it hands samples over and returns, and it may return `-EINTR` or
-- another negative number.
pub data Poll : Type 0 where
  polled interrupted failed : List Sample → Poll

module _ {S : Type 0} (handle : S → SecurityEvent → S) where
  unfoldable pub on_event : ℕ → S → Sample → S
  on_event event_size s (size, ev) = if ltb size event_size then s else handle s ev

  unfoldable pub deliver : ℕ → S → List Sample → S
  deliver event_size s [] = s
  deliver event_size s (x ∷ xs) = deliver event_size (on_event event_size s x) xs

  -- The loop of `main`: whether `g_exiting` is set at the test, and what the poll does.
  unfoldable pub poll_loop : ℕ → List (Bool × Poll) → S → S
  poll_loop event_size [] s = s
  poll_loop event_size ((true, p) ∷ more) s = s
  poll_loop event_size ((false, polled xs) ∷ more) s =
      poll_loop event_size more (deliver event_size s xs)
  poll_loop event_size ((false, interrupted xs) ∷ more) s = deliver event_size s xs
  poll_loop event_size ((false, failed xs) ∷ more) s = deliver event_size s xs

  -- The loop and the `ring_buffer__consume` after it, which hands the samples that are left over.
  unfoldable pub run_collector : ℕ → List (Bool × Poll) → List Sample → S → S
  run_collector event_size polls left s = deliver event_size (poll_loop event_size polls s) left

  abbrev pub handle_list : List SecurityEvent → S → S
  handle_list [] s = s
  handle_list (ev ∷ evs) s = handle_list evs (handle s ev)

  -- The five made-up events are built before the first is handled; `none` is an exception.
  module _ (clock : Clock) (inet_pton : Bytes → Option ℕ) where
    abbrev synthetic_events :
        ℕ → ℕ → ℕ → Option SecurityEvent → Option SecurityEvent → Option (List SecurityEvent)
    synthetic_events t1 t2 t3 none app = none
    synthetic_events t1 t2 t3 (some beacon) none = none
    synthetic_events t1 t2 t3 (some beacon) (some app) = some (
        syn_execve t1 (text "bash") (text "/usr/bin/ls") 4242 4200
        ∷ syn_execve t2 (text "bash") (text "/tmp/xmrig") 4242 4200
        ∷ syn_execve t3 (text "bash") (text "/usr/bin/curl") 4242 4200
        ∷ beacon
        ∷ app
        ∷ [])

    abbrev handle_made : S → Option (List SecurityEvent) → Option S
    handle_made s none = none
    handle_made s (some evs) = some (handle_list evs s)

    unfoldable pub run_synthetic : S → clock.World → Option S
    run_synthetic s w =
        let (t1, w1) = clock.now_ns w in
        let (t2, w2) = clock.now_ns w1 in
        let (t3, w3) = clock.now_ns w2 in
        let (t4, w4) = clock.now_ns w3 in
        let (t5, w5) = clock.now_ns w4 in
        handle_made s (
          synthetic_events t1 t2 t3
            (syn_tcp inet_pton t4 (text "beacon") (text "45.9.148.99") 4444 4242 4200)
            (syn_tcp inet_pton t5 (text "app") (text "10.0.0.5") 443 4242 4200))

module _ (lib : Libs) (os : Sockets) (files : Bytes → Option Bytes) where
  -- The sink and the direction that its thread seals with.
  abbrev pub started : ℕ → Run os.Conn Channel → Run os.Conn (ChannelSink × Direction)
  started capacity waiting = waiting
  started capacity (threw why) = threw why
  started capacity (gave channel c) = gave (new_sink capacity, channel.sender) c

  abbrev pub connected :
      ℕ → Entropy → ℕ → Identity → Result os.Conn → Run os.Conn (ChannelSink × Direction)
  connected fuel e capacity id (err why) = threw why
  connected fuel e capacity id (ok c) =
      started capacity (over_socket os fuel c (client_handshake lib e id))

  abbrev pub identified :
      (ℕ → Bytes → Result os.Conn)
      → ℕ
      → Entropy
      → Options
      → Result Identity
      → Run os.Conn (ChannelSink × Direction)
  identified tcp_connect fuel e o (err why) = threw why
  identified tcp_connect fuel e o (ok id) = connected fuel e o.queue id (tcp_connect o.port o.host)

  unfoldable pub make_forward_sink :
      (ℕ → Bytes → Result os.Conn) → ℕ → Entropy → Options → Run os.Conn (ChannelSink × Direction)
  make_forward_sink tcp_connect fuel e o =
      identified tcp_connect fuel e o (
        load_identity lib files (o.id_prefix ++ text ".pub") (o.id_prefix ++ text ".key")
          o.peer_pub)
