-- ===== src/Tests/Main.antt =====
-- The theorem on the program of analyzer/src/main.cpp at a connection with one event.
use pqc_edr.Base.{
  ℕ, ◌≡◌, ◌≢◌, refl, ap, false, true, none, some, Option, List, [], ◌∷◌, ◌++◌, get_or, ◌-◌,
  if◌then◌else◌, arith, length,
}
use pqc_edr.Base.Words.{Bytes}
use pqc_edr.Base.Text.{text, bytes_eq}
use pqc_edr.Crypto.Result.{ok}
use pqc_edr.Crypto.Handshake.{Identity}
use pqc_edr.Crypto.IdentityFiles.{load_identity, read_bytes_file}
use pqc_edr.Crypto.Socket.Open.{tcp_listen}
use pqc_edr.Analyzer.Claude.{Web, thrown, failed}
use pqc_edr.Analyzer.Correlator.State.{new_correlator}
use pqc_edr.Analyzer.Daemon.{Served, still_served, serve_connection}
use pqc_edr.Analyzer.Daemon.Service.{sealed_events_classified}
use pqc_edr.Analyzer.Main.{
  Options, default_options, accepted, parse_args, parse_loop, take_argument, take_option, Host,
  make_llm, Arrivals,
}
use pqc_edr.Analyzer.Main.Closed.{main-closes}
use pqc_edr.Analyzer.Main.Once.{first_service, main-once}
use pqc_edr.Tests.Events.{toy_libc, connects}
use pqc_edr.Tests.Crypto.{toy_gcm, toy_laws as gcm_laws}
use pqc_edr.Tests.Daemon.{daemon, line, frames-IsFrame}
use pqc_edr.Tests.Handshake.{
  toy_libs, toy_laws, drawn, agent, analyzer, ch_frame, sh_frame, sa_frame, ca_frame, way, both,
  hello_record, client_completes, server_completes, hello_sealed,
}
use pqc_edr.Tests.Wire.{toy_os, toy_socket}

abbrev offline : Web (Unit {0})
offline = record {
  post = λ w key model system message limit. (failed [], w);
  content_text = λ body. thrown [];
  usage = λ body. thrown [];
  answer = λ body. thrown [];
}

abbrev files : Bytes → Option Bytes
files path =
    if bytes_eq path (text "analyzer.pub")
    then some (3 ∷ [])
    else if bytes_eq path (text "analyzer.key")
    then some (4 ∷ [])
    else some (1 ∷ [])

abbrev host : Host
host = record {
  World = Unit {0};
  web = offline;
  world = tt;
  triage_prompt = [];
  analyst_prompt = [];
  api_key = none;
  stoi = λ s. some (get_or s 0 48 - 48);
  files = files;
  listen = λ port address. record { address = some 1; fd = some 3; bound = true; listening = true };
  os = toy_os;
  lib = toy_libs;
  gcm = toy_gcm;
  libc = toy_libc;
  event_size = 2;
  decode = λ pt. connects 4444 (length pt);
}

abbrev argv : List Bytes
argv = text "--port" ∷ text "9" ∷ text "--once" ∷ []

abbrev asked : Options
asked = record default_options { port = 9; once = true }

accepts : parse_args host.stoi argv ≡ accepted asked
unfolding parse_loop take_argument take_option text bytes_eq
accepts = refl

loads :
    load_identity toy_libs files (text "analyzer.pub") (text "analyzer.key") (text "agent.pub")
    ≡ ok analyzer
unfolding load_identity read_bytes_file text bytes_eq
loads = refl

abbrev std_fds : List ℕ
std_fds = 0 ∷ 1 ∷ 2 ∷ []

abbrev arrivals : Arrivals host
arrivals = (false, some (4, drawn, line)) ∷ []

ends : (first_service host 2 300 asked analyzer drawn line).1.ending ≢ still_served
unfolding make_llm
ends h =
    let closed =
      ap (λ (r : Served Unit). r.ending)
        (sealed_events_classified daemon toy_socket toy_laws gcm_laws 2 300 drawn drawn agent
          ch_frame sh_frame sa_frame ca_frame both both ((104 ∷ 105 ∷ []) ∷ []) (hello_record ∷ [])
          (record way { seq = 1 }) line tt (new_correlator 60000000000 3) client_completes
          server_completes frames-IsFrame hello_sealed refl (omega arith) (omega arith)) in
    let served_on : (serve_connection daemon 2 300 drawn line tt
          (new_correlator 60000000000 3)).ending
        ≡ still_served =
      h in
    cc

loads_asked :
    load_identity toy_libs files
      (asked.id_prefix ++ text ".pub")
      (asked.id_prefix ++ text ".key")
      asked.peer_pub
    ≡ ok analyzer
unfolding text
loads_asked = loads

listens : tcp_listen (host.listen 9 (text "127.0.0.1")) std_fds ≡ (ok 3, 3 ∷ std_fds)
unfolding tcp_listen
listens = refl

main-closes_example :
    (std_fds ≡ std_fds)
    × (o : Options) × (id : Identity) × (parse_args host.stoi argv ≡ accepted o)
    × (load_identity toy_libs files
          (o.id_prefix ++ text ".pub")
          (o.id_prefix ++ text ".key")
          o.peer_pub
        ≡ ok id)
main-closes_example =
    main-closes host 2 300 arrivals argv std_fds std_fds
      (first_service host 2 300 asked analyzer drawn line).1.outcomes
      (main-once host 2 300 argv std_fds asked analyzer 3 4 drawn line [] accepts refl loads_asked
        listens ends)
