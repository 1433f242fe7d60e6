-- ===== src/Analyzer/Main/Once.antt =====
-- The analyzer with `--once`: analyzer/src/main.cpp.
use pqc_edr.Base.{ℕ, ◌≡◌, ◌≢◌, refl, ◌∙◌, ap, Bool, true, false, some, List, ◌∷◌, ◌++◌, append-nil}
use pqc_edr.Base.Words.{Bytes}
use pqc_edr.Base.Text.{text}
use pqc_edr.Crypto.Result.{ok}
use pqc_edr.Crypto.Handshake.{Identity, Entropy}
use pqc_edr.Crypto.IdentityFiles.{load_identity}
use pqc_edr.Crypto.Socket.Open.{tcp_listen, close_fd, close_newest}
use pqc_edr.Analyzer.Correlator.State.{Correlator, new_correlator}
use pqc_edr.Analyzer.Daemon.{
  Daemon, Served, Ending, still_served, Arrival, Looped, looped, after_all, by_ending,
  after_service, serve_connection, accept_loop,
}
use pqc_edr.Analyzer.Main.{
  Options, accepted, parse_args, Host, exited, make_llm, daemon_of, Arrivals, finish, run_daemon,
  main,
}

by_ending-once :
    {S : Type 0} (dm : Daemon S) (next : S → Correlator → List ℕ → Looped dm) (fd : ℕ)
    (fds : List ℕ) (done : Served S) (how : Ending)
    → how ≢ still_served
    → by_ending dm true next fd (fd ∷ fds) done how
      ≡ after_all dm done.outcomes (looped dm done.client done.correlator fds true)
unfolding close_fd
by_ending-once dm next fd fds done still_served ends = absurd (ends refl)
by_ending-once dm next fd fds done how ends = rw (close_newest fd fds) refl

accept_loop-once :
    {S : Type 0} (dm : Daemon S) (rounds fuel fd : ℕ) (once : Bool) (e : Entropy) (c : dm.os.Conn)
    (others : List (Bool × Arrival dm)) (s : S) (corr : Correlator) (fds : List ℕ)
    → once ≡ true
    → (serve_connection dm rounds fuel e c s corr).ending ≢ still_served
    → (let done = serve_connection dm rounds fuel e c s corr in
        accept_loop dm rounds fuel once ((false, some (fd, e, c)) ∷ others) s corr fds
        ≡ after_all dm done.outcomes (looped dm done.client done.correlator fds true))
unfolding accept_loop after_service
accept_loop-once dm rounds fuel fd once e c others s corr fds is_once ends =
    let done = serve_connection dm rounds fuel e c s corr in
    rw is_once
      (by_ending-once dm (accept_loop dm rounds fuel true others) fd fds done done.ending ends)

module _ (h : Host) (rounds fuel : ℕ) where
  -- The service of the first connection.
  abbrev pub first_service : Options → Identity → Entropy → h.os.Conn → (S : Type 0) × Served S
  first_service o id e c =
      let llm = make_llm h o in
      (
        llm.State,
        serve_connection (daemon_of h id llm) rounds fuel e c llm.state
            (new_correlator 60000000000 3),
      )

  -- With `--once`, an analyzer whose identity loads and whose port can be listened on serves the first
  -- connection, if the service ends, then returns 0 with the outcomes of its events.
  pub main-once :
      (argv : List Bytes) (fds : List ℕ) (o : Options) (id : Identity) (lfd fd : ℕ) (e : Entropy)
      (c : h.os.Conn) (others : Arrivals h)
      → parse_args h.stoi argv ≡ accepted o
      → o.once ≡ true
      → load_identity h.lib h.files
          (o.id_prefix ++ text ".pub")
          (o.id_prefix ++ text ".key")
          o.peer_pub
        ≡ ok id
      → tcp_listen (h.listen o.port o.bind_ip) fds ≡ (ok lfd, lfd ∷ fds)
      → (first_service o id e c).1.ending ≢ still_served
      → main h rounds fuel ((false, some (fd, e, c)) ∷ others) argv fds
        ≡ exited 0 (first_service o id e c).1.outcomes fds
  unfolding main run_daemon close_fd
  main-once argv fds o id lfd fd e c others accept once loaded listens ends =
      let llm = make_llm h o in
      let dm = daemon_of h id llm in
      let round =
        accept_loop-once dm rounds fuel fd o.once e c others llm.state
          (new_correlator 60000000000 3) (lfd ∷ fds) once ends in
      rw (accept, loaded, listens)
        (ap (finish h {dm = dm} lfd) round ∙ rw (close_newest, append-nil) refl)
