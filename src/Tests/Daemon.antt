-- ===== src/Tests/Daemon.antt =====
-- The theorems on crypto/src/socket.cpp and analyzer/src/main.cpp over such a system.
use pqc_edr.Base.{◌≤◌, ◌≡◌, refl, [], ◌∷◌, ◌++◌, length, false, some, replicate, All, arith}
use pqc_edr.Base.Words.{Bytes, join_bytes}
use pqc_edr.Crypto.Result.{socket, closed_in_handshake}
use pqc_edr.Crypto.Handshake.{server_handshake, server_new}
use pqc_edr.Crypto.Socket.{gave, threw, recv_frame, read_loop, write_loop}
use pqc_edr.Crypto.Socket.Sending.{write_all_lem}
use pqc_edr.Crypto.Socket.Framing.{IsFrame}
use pqc_edr.Crypto.Socket.Transport.{concat, over_socket}
use pqc_edr.Analyzer.Llm.{mock_llm}
use pqc_edr.Analyzer.Correlator.State.{new_correlator}
use pqc_edr.Analyzer.Pipeline.{classify_all}
use pqc_edr.Analyzer.Daemon.{Daemon, serve_connection, accept_loop}
use pqc_edr.Analyzer.Daemon.Service.{
  served, events_of, sealed_events_classified, refused_connection,
}
use pqc_edr.Tests.Events.{toy_libc, connects}
use pqc_edr.Tests.Crypto.{toy_gcm, toy_laws as gcm_laws}
use pqc_edr.Tests.Handshake.{
  toy_libs, toy_laws, drawn, agent, analyzer, ch_frame, sh_frame, sa_frame, ca_frame, way, both,
  hello_record, client_completes, server_completes, hello_sealed,
}
use pqc_edr.Tests.Wire.{Wire, toy_os, toy_socket}

abbrev pub daemon : Daemon (Unit {0})
daemon = record {
  os = toy_os;
  lib = toy_libs;
  gcm = toy_gcm;
  libc = toy_libc;
  llm = mock_llm;
  id = analyzer;
  event_size = 2;
  decode = λ pt. connects 4444 (length pt);
}

abbrev stream : Bytes
stream = concat (ch_frame ∷ ca_frame ∷ []) ++ concat (hello_record ∷ [])

abbrev pub line : Wire
line = record { inward = stream; outward = []; signals = 3 }

pub frames-IsFrame : All IsFrame (ch_frame ∷ ca_frame ∷ [])
unfolding join_bytes
frames-IsFrame = (
  (1, 1, 0, 65, replicate 32 8 ++ (replicate 32 9 ++ 1 ∷ []), refl, refl),
  ((4, 1, 0, 2, 5 ∷ 7 ∷ [], refl, refl), tt),
)

sealed_events_classified_example :
    serve_connection daemon 2 300 drawn line tt (new_correlator 100 3)
    ≡ served daemon (
        classify_all toy_libc mock_llm
          (events_of daemon ((104 ∷ 105 ∷ []) ∷ []))
          tt
          (new_correlator 100 3))
sealed_events_classified_example =
    sealed_events_classified daemon toy_socket toy_laws gcm_laws 2 300 drawn drawn agent ch_frame
      sh_frame sa_frame ca_frame both both ((104 ∷ 105 ∷ []) ∷ []) (hello_record ∷ [])
      (record way { seq = 1 }) line tt (new_correlator 100 3) client_completes server_completes
      frames-IsFrame hello_sealed refl (omega arith) (omega arith)

abbrev hung_up : Wire
hung_up = record { inward = []; outward = []; signals = 1 }

hung_up_throws :
    over_socket toy_os 5 hung_up (server_handshake toy_libs drawn analyzer)
    ≡ threw (socket closed_in_handshake)
unfolding over_socket server_handshake server_new recv_frame read_loop
hung_up_throws = refl

refused_connection_example :
    accept_loop daemon 2 5 false
      ((false, some (4, drawn, hung_up)) ∷ [])
      tt
      (new_correlator 100 3)
      (3 ∷ [])
    ≡ accept_loop daemon 2 5 false [] tt (new_correlator 100 3) (3 ∷ [])
refused_connection_example =
    refused_connection daemon 2 5 4 drawn hung_up (socket closed_in_handshake) [] tt
      (new_correlator 100 3) (3 ∷ []) hung_up_throws

write_all_lem_example :
    (d : Wire) × (write_loop toy_os 9 hung_up (7 ∷ 8 ∷ []) ≡ gave tt d)
    × (d.outward ≡ 7 ∷ 8 ∷ [])
    × (d.inward ≡ [])
    × (d.signals ≤ 1)
write_all_lem_example = write_all_lem toy_os toy_socket 9 hung_up (7 ∷ 8 ∷ []) (omega arith)
