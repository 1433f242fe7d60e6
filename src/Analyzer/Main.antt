-- ===== src/Analyzer/Main.antt =====
-- The program of the analyzer: `Options`, `parse_args`, `make_llm` and `main` of analyzer/src/main.cpp. The
-- state is the list of the open descriptors. The conversion of `std::stoi`, the files, the environment and
-- what the calls on sockets give are parameters.
pub mod Closed
pub mod Once
use pqc_edr.Base.{
  ℕ, ◌%◌, ◌^◌, Bool, true, false, not, ◌&&◌, Option, none, some, List, [], ◌∷◌, ◌++◌, is_empty,
  if◌then◌else◌,
}
use pqc_edr.Base.Words.{Bytes}
use pqc_edr.Base.Text.{text, bytes_eq}
use pqc_edr.Crypto.Result.{Result, ok, err}
use pqc_edr.Crypto.Record.{Gcm}
use pqc_edr.Crypto.Primitives.{Libs}
use pqc_edr.Crypto.Handshake.{Identity, Entropy}
use pqc_edr.Crypto.IdentityFiles.{load_identity}
use pqc_edr.Crypto.Socket.{Sockets}
use pqc_edr.Crypto.Socket.Open.{ListenAnswers, tcp_listen, close_fd}
use pqc_edr.Event.{SecurityEvent}
use pqc_edr.Analyzer.Libc.{Libc}
use pqc_edr.Analyzer.Llm.{LlmClient, mock_llm}
use pqc_edr.Analyzer.Claude.{Web, claude_llm}
use pqc_edr.Analyzer.Correlator.State.{new_correlator}
use pqc_edr.Analyzer.Pipeline.{Outcome}
use pqc_edr.Analyzer.Daemon.{Daemon, Looped, accept_loop}

pub record Options : Type 0 where
  pub port : ℕ
  pub bind_ip : Bytes
  pub id_prefix : Bytes
  pub peer_pub : Bytes
  pub mock_llm : Bool
  pub once : Bool

abbrev pub default_options : Options
default_options = record {
  port = 9443;
  bind_ip = text "127.0.0.1";
  id_prefix = text "analyzer";
  peer_pub = text "agent.pub";
  mock_llm = false;
  once = false;
}

-- What the next argument is taken for: an option, or the value of one.
pub data Waits : Type 0 where
  for_option for_port for_bind for_id for_peer : Waits

-- The calls of `exit(1)`, and the exception of `std::stoi`, which nothing catches.
pub data Refusal : Type 0 where
  no_value bad_number : Refusal
  unknown_argument : Bytes → Refusal

pub data Next : Type 0 where
  go : Waits → Options → Next
  stop : Refusal → Next

pub data Parsed : Type 0 where
  refused : Refusal → Parsed
  accepted : Options → Parsed

unfoldable pub take_option : Bytes → Options → Next
take_option a o =
    if bytes_eq a (text "--port")
    then go for_port o
    else if bytes_eq a (text "--bind")
    then go for_bind o
    else if bytes_eq a (text "--id")
    then go for_id o
    else if bytes_eq a (text "--peer")
    then go for_peer o
    else if bytes_eq a (text "--mock-llm")
    then go for_option (record o { mock_llm = true })
    else if bytes_eq a (text "--once")
    then go for_option (record o { once = true })
    else stop (unknown_argument a)

abbrev pub set_port : Options → Option ℕ → Next
set_port o none = stop bad_number
set_port o (some v) = go for_option (record o { port = v % 2 ^ 16 })

-- One argument. `stoi` gives the bits of an `int`, and `none` where it throws.
unfoldable pub take_argument : (Bytes → Option ℕ) → Waits → Bytes → Options → Next
take_argument stoi for_option a o = take_option a o
take_argument stoi for_port a o = set_port o (stoi a)
take_argument stoi for_bind a o = go for_option (record o { bind_ip = a })
take_argument stoi for_id a o = go for_option (record o { id_prefix = a })
take_argument stoi for_peer a o = go for_option (record o { peer_pub = a })

abbrev pub end_of_arguments : Waits → Options → Parsed
end_of_arguments for_option o = accepted o
end_of_arguments waits o = refused no_value

unfoldable pub parse_loop : (Bytes → Option ℕ) → List Bytes → Waits → Options → Parsed
parse_loop stoi [] waits o = end_of_arguments waits o
parse_loop stoi (a ∷ rest) waits o = elim (take_argument stoi waits a o) [
  | stop why ↦ refused why
  | go waits' o' ↦ parse_loop stoi rest waits' o'
]

abbrev pub parse_args : (Bytes → Option ℕ) → List Bytes → Parsed
parse_args stoi argv = parse_loop stoi argv for_option default_options

-- A client with the state that it starts from.
pub record AnyClient : Type 1 where
  pub State : Type 0
  pub client : LlmClient State
  pub state : State

-- What the program finds around it. The prompts are literals of the client of the API.
pub record Host : Type 1 where
  pub World : Type 0
  pub web : Web World
  pub world : World
  pub triage_prompt : Bytes
  pub analyst_prompt : Bytes
  pub api_key : Option Bytes
  pub stoi : Bytes → Option ℕ
  pub files : Bytes → Option Bytes
  pub listen : ℕ → Bytes → ListenAnswers
  pub os : Sockets
  pub lib : Libs
  pub gcm : Gcm
  pub libc : Libc
  pub event_size : ℕ
  pub decode : Bytes → SecurityEvent

-- How `main` ends: by returning, by an exception that nothing catches, or not yet. With it, the outcomes
-- of the events and the descriptors that are open.
pub data Ended : Type 0 where
  exited : ℕ → List Outcome → List ℕ → Ended
  uncaught : Ended
  running : List Outcome → List ℕ → Ended

module _ (h : Host) where
  abbrev pub mock : AnyClient
  mock = record { State = Unit {0}; client = mock_llm; state = tt }

  abbrev pub claude : Bytes → AnyClient
  claude key = record {
    State = h.World;
    client =
        claude_llm h.web key (text "claude-haiku-4-5") (text "claude-sonnet-5") h.triage_prompt
          h.analyst_prompt;
    state = h.world;
  }

  -- `!o.mock_llm && key && *key`
  abbrev pub client_of : Bool → Option Bytes → AnyClient
  client_of is_mock none = mock
  client_of is_mock (some key) = if not is_mock && not (is_empty key) then claude key else mock

  unfoldable pub make_llm : Options → AnyClient
  make_llm o = client_of o.mock_llm h.api_key

  abbrev pub daemon_of : Identity → (llm : AnyClient) → Daemon llm.State
  daemon_of id llm = record {
    os = h.os;
    lib = h.lib;
    gcm = h.gcm;
    libc = h.libc;
    llm = llm.client;
    id = id;
    event_size = h.event_size;
    decode = h.decode;
  }

  -- What `main` is given besides: whether `g_exiting` is set at each test, and what each `tcp_accept` gives.
  abbrev pub Arrivals : Type 0
  Arrivals = List (Bool × Option (ℕ × Entropy × h.os.Conn))

  -- The end of `main`, which closes the socket that listens.
  abbrev pub finish : {S : Type 0} {dm : Daemon S} → ℕ → Looped dm → Ended
  finish lfd r =
      if r.is_over
      then exited 0 r.outcomes (close_fd (some lfd) r.fds)
      else running r.outcomes r.fds

  module _ (rounds fuel : ℕ) (arrivals : Arrivals) where
    abbrev pub listened : Options → Identity → Result ℕ × List ℕ → Ended
    listened o id (err why, fds) = exited 1 [] fds
    listened o id (ok lfd, fds) =
        let llm = make_llm o in
        finish lfd (
          accept_loop (daemon_of id llm) rounds fuel o.once arrivals llm.state
            (new_correlator 60000000000 3) fds)

    abbrev pub identified : Options → List ℕ → Result Identity → Ended
    identified o fds (err why) = exited 1 [] fds
    identified o fds (ok id) = listened o id (tcp_listen (h.listen o.port o.bind_ip) fds)

    -- `main` after the options.
    unfoldable pub run_daemon : Options → List ℕ → Ended
    run_daemon o fds = identified o fds (
        load_identity h.lib h.files (o.id_prefix ++ text ".pub") (o.id_prefix ++ text ".key")
          o.peer_pub)

    abbrev pub with_options : List ℕ → Parsed → Ended
    with_options fds (refused bad_number) = uncaught
    with_options fds (refused why) = exited 1 [] fds
    with_options fds (accepted o) = run_daemon o fds

    unfoldable pub main : List Bytes → List ℕ → Ended
    main argv fds = with_options fds (parse_args h.stoi argv)
