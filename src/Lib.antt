-- ===== src/Lib.antt =====
-- A verification of pqc-edr, an endpoint detection pipeline: an agent collects security events, sends them
-- over an encrypted channel, and an analyzer decides which of them become alerts.
--
-- The parts and their files:
--   * common/event.h is Event: the event that agent and analyzer share.
--   * crypto/src/wire.cpp is Crypto/Wire: the frames of the handshake. `serialize` is one function for each
--     message, `serialize_client_hello` and so on; the reader is a buffer with a position.
--   * crypto/src/record.cpp is Crypto/Record: `RecordSender::seal` is `seal`, `RecordReceiver::open` is
--     `open_record`, and both classes are `Direction`, their common members.
--   * crypto/src/{kdf,x25519,pqc_kem,pqc_sig}.cpp are Crypto/Primitives, the checks around the libraries, and
--     crypto/src/session.cpp is Crypto/Session.
--   * crypto/src/handshake.cpp is Crypto/Handshake: `client_handshake` and `server_handshake` are processes
--     that send and receive frames, and `run` gives them the frames that come in. Their parts between two
--     frames are functions, `client_start`, `client_agree` and so on.
--   * crypto/src/socket.cpp is Crypto/Socket: `read_all` and `write_all` are loops over parameters for `recv`
--     and `send`, and frames and records are read with them. `over_socket` runs a side of the handshake with
--     the transport of a socket.
--   * crypto/src/identity.cpp and tools/keygen.cpp are Crypto/IdentityFiles: loading, and in Writing the
--     generation of a pair of files. Socket/Open has the creation of sockets.
--   * analyzer/src/prefilter.cpp and alert.h are Analyzer/Prefilter and Analyzer/Alert: rules, summaries.
--   * analyzer/src/correlator.cpp is Analyzer/Correlator: `Correlator::observe` with its three handlers.
--   * analyzer/src/llm_client.h and llm_client.cpp are Analyzer/Llm: the interface of a classifier, which
--     threads the client's own state, and the mock.
--   * analyzer/src/llm_client_claude.cpp is Analyzer/Claude: `ClaudeLlmClient::call` is `call`, and its parts
--     after the exchange are `read_reply`, `read_body` and `classification_of`.
--   * analyzer/src/pipeline.cpp is Analyzer/Pipeline: `classify_event`, and `classify_all` for a
--     sequence of events.
--   * analyzer/src/main.cpp is Analyzer/Daemon: the service of a connection from the handshake to the last
--     event, and the loop over connections. Analyzer/Main is its command line and `main`.
--   * analyzer/src/eval.cpp is Analyzer/Eval: `MemoLlm` is Eval/Memo, a file runs on the virtual clock, and
--     its scores decide the gate; Eval/Options is its command line, and Eval/Run its walk over the files.
--   * common/events_file.h is EventsFile: the printer of recorded events, and in EventsFile/Parser the parser.
--   * agent/bpf/collector.bpf.c is Agent/Collector: the three hooks, each as the event that it submits.
--   * `ChannelSink` of agent/src/main.cpp is Agent/ChannelSink: the two threads as the relation `Reaches`.
--   * `RecordSink` and `StdoutSink` of agent/src/main.cpp are Agent/RecordSink and Agent/StdoutSink,
--     `run_replay` is Agent/Replay, `populate_sensitive` is Agent/Sensitive, the made-up events are
--     Agent/Synthetic, the command line is Agent/Options, and `main` with its loop is Agent/Main.
--   * Base has lists, bytes, text and numbers; Tests applies each theorem to a concrete input.
--
-- How they interact: the collector's hooks give events to the agent, whose sink seals each with the record
-- layer of the channel that the handshake made, and writes it to a socket. The analyzer's daemon reads the
-- records, opens them and gives each event to the pipeline, which asks the rules, the correlator and the
-- LLM. The evaluation gives recorded events to the same pipeline.
--
-- Conventions: an exception is an `err` of Crypto/Result, and a call that throws leaves the object as it
-- was. A byte string is a list of numbers, and a `std::map` is an association list. 64-bit sums are taken
-- modulo 2^64 where they are written; sizes of containers are unbounded. Loops are structural recursion
-- wherever the source walks a container. Others count down: `decimal n` has n + 1 rounds, more than n has
-- digits, and `mix` has the eight rounds of the source; `pieces` and `read_options` have a round for each
-- character that is left, of which every round takes one. The loops on a socket take fuel: a bound on the
-- interruptions and the bytes to move is enough, and the theorems on them say so.
--
-- Taken as parameters: AES-256-GCM (`Gcm`, with the laws `GcmLaws`), ML-KEM, ML-DSA, X25519, SHA-256,
-- HKDF and the random generator (`Libs`, with the laws `AgreementLaws`), the sockets of the operating
-- system (`Sockets`, with the laws `SocketLaws`: a connection that stays up), the BPF helpers, the
-- reading of numbers and addresses (`Numbers`, with `HexLaws` and `DecimalLaws`), the printing of
-- addresses and of seconds (`Libc`), HTTP and JSON (`Web`), the clock (`Clock`), the conversions of
-- options (`Integers`), `stat` and the map of the kernel (`SensMap`, with `SensMapLaws`), the files of
-- the evaluation (`FileTree`), what the analyzer's program finds around it (`Host`), the disk (`Disk`,
-- with `DiskLaws`), the layout of an event in memory (`decode` of `Daemon`), and any LLM client.
--
-- Not modelled: signal handlers and messages to the terminal, the report of the evaluation, examples,
-- benchmarks and self tests.
pub mod Base
pub mod Crypto
pub mod Event
pub mod EventsFile
pub mod Analyzer
pub mod Agent
pub mod Tests
