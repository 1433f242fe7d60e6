-- ===== src/Analyzer/Main/Closed.antt =====
-- How the analyzer returns, and the descriptors it leaves: analyzer/src/main.cpp.
use pqc_edr.Base.{
  ℕ, ◌≡◌, refl, Bool, true, false, Bool-cases, inl, inr, Option, none, some, List, [], ◌∷◌, ◌++◌,
}
use pqc_edr.Base.Words.{Bytes}
use pqc_edr.Base.Text.{text}
use pqc_edr.Crypto.Result.{Result, ok, err}
use pqc_edr.Crypto.Handshake.{Identity}
use pqc_edr.Crypto.IdentityFiles.{load_identity}
use pqc_edr.Crypto.Socket.Open.{
  ListenAnswers, listen_on, listen_socket, listen_address, tcp_listen, close_fd, close_newest,
}
use pqc_edr.Analyzer.Correlator.State.{Correlator, new_correlator}
use pqc_edr.Analyzer.Pipeline.{Outcome}
use pqc_edr.Analyzer.Daemon.{
  Daemon, Served, Ending, still_served, Arrival, Looped, go_on, close_and_go, by_ending,
  after_service, serve_connection, accept_loop,
}
use pqc_edr.Analyzer.Main.{
  Options, bad_number, no_value, unknown_argument, Parsed, refused, accepted, parse_args, Host,
  exited, make_llm, daemon_of, Arrivals, finish, listened, identified, run_daemon, with_options,
  main,
}

module _ {S : Type 0} (dm : Daemon S) where
  -- A loop that is over has the descriptors open that were open before it.
  abbrev IsClosing : Looped dm → List ℕ → Type 0
  IsClosing r fds = r.is_over ≡ true → r.fds ≡ fds

  go_on-IsClosing :
      (once : Bool) (next : S → Correlator → List ℕ → Looped dm) (s : S) (corr : Correlator)
      (fds : List ℕ)
      → ((s' : S) (corr' : Correlator) → IsClosing (next s' corr' fds) fds)
      → IsClosing (go_on dm once next s corr fds) fds
  go_on-IsClosing true next s corr fds later h = refl
  go_on-IsClosing false next s corr fds later h = later s corr h

  close_and_go-IsClosing :
      (once : Bool) (next : S → Correlator → List ℕ → Looped dm) (fd : ℕ) (fds : List ℕ)
      (done : Served S)
      → ((s : S) (corr : Correlator) → IsClosing (next s corr fds) fds)
      → IsClosing (close_and_go dm once next fd (fd ∷ fds) done) fds
  unfolding close_fd
  close_and_go-IsClosing once next fd fds done later =
      rw (close_newest fd fds) (go_on-IsClosing once next done.client done.correlator fds later)

  by_ending-IsClosing :
      (once : Bool) (next : S → Correlator → List ℕ → Looped dm) (fd : ℕ) (fds : List ℕ)
      (done : Served S) (how : Ending)
      → ((s : S) (corr : Correlator) → IsClosing (next s corr fds) fds)
      → IsClosing (by_ending dm once next fd (fd ∷ fds) done how) fds
  by_ending-IsClosing once next fd fds done still_served later = λ h. cc
  by_ending-IsClosing once next fd fds done how later =
      close_and_go-IsClosing once next fd fds done later

  accept_loop-IsClosing :
      (rounds fuel : ℕ) (once : Bool) (arrivals : List (Bool × Arrival dm)) (s : S)
      (corr : Correlator) (fds : List ℕ)
      → IsClosing (accept_loop dm rounds fuel once arrivals s corr fds) fds
  unfolding accept_loop after_service
  accept_loop-IsClosing rounds fuel once [] s corr fds = λ h. cc
  accept_loop-IsClosing rounds fuel once ((true, a) ∷ others) s corr fds = λ h. refl
  accept_loop-IsClosing rounds fuel once ((false, none) ∷ others) s corr fds =
      go_on-IsClosing once (accept_loop dm rounds fuel once others) s corr fds
        (λ s' corr'. accept_loop-IsClosing rounds fuel once others s' corr' fds)
  accept_loop-IsClosing rounds fuel once ((false, some (fd, e, c)) ∷ others) s corr fds =
      let done = serve_connection dm rounds fuel e c s corr in
      by_ending-IsClosing once (accept_loop dm rounds fuel once others) fd fds done done.ending
        (λ s' corr'. accept_loop-IsClosing rounds fuel once others s' corr' fds)

-- A socket that listens is open besides the others.
abbrev IsListening : List ℕ → Result ℕ × List ℕ → Type 0
IsListening fds (err why, after) = Unit
IsListening fds (ok fd, after) = after ≡ fd ∷ fds

listen_on-IsListening :
    (a : ListenAnswers) (fd : ℕ) (fds : List ℕ) → IsListening fds (listen_on a fd fds)
listen_on-IsListening a fd fds = elim (Bool-cases a.bound) [
  | inr e ↦ rw e tt
  | inl e ↦ elim (Bool-cases a.listening) [ inl l ↦ rw (e, l) refl | inr l ↦ rw (e, l) tt ]
]

listen_socket-IsListening :
    (a : ListenAnswers) (fd : Option ℕ) (fds : List ℕ) → IsListening fds (listen_socket a fd fds)
listen_socket-IsListening a none fds = tt
listen_socket-IsListening a (some fd) fds = listen_on-IsListening a fd fds

listen_address-IsListening :
    (a : ListenAnswers) (address : Option ℕ) (fds : List ℕ)
    → IsListening fds (listen_address a address fds)
listen_address-IsListening a none fds = tt
listen_address-IsListening a (some addr) fds = listen_socket-IsListening a a.fd fds

module _ (h : Host) (rounds fuel : ℕ) (arrivals : Arrivals h) where
  finish-closes :
      {S : Type 0} {dm : Daemon S} (lfd : ℕ) (r : Looped dm) (fds after : List ℕ)
      (os : List Outcome)
      → IsClosing dm r (lfd ∷ fds)
      → finish h lfd r ≡ exited 0 os after
      → after ≡ fds
  unfolding close_fd
  finish-closes lfd r fds after os closing e = elim (Bool-cases r.is_over) [
    | inr lasts ↦ let e' = rw lasts at e in cc
    | inl over ↦ let e' = rw (over, closing over, close_newest lfd fds) at e in cc
  ]

  listened-closes :
      (o : Options) (id : Identity) (res : Result ℕ × List ℕ) (fds after : List ℕ)
      (os : List Outcome)
      → IsListening fds res
      → listened h rounds fuel arrivals o id res ≡ exited 0 os after
      → after ≡ fds
  listened-closes o id (err why, opened) fds after os l e = cc
  listened-closes o id (ok lfd, opened) fds after os l e =
      let llm = make_llm h o in
      let dm = daemon_of h id llm in
      let corr = new_correlator 60000000000 3 in
      let closing =
        accept_loop-IsClosing dm rounds fuel o.once arrivals llm.state corr (lfd ∷ fds) in
      let r = accept_loop dm rounds fuel o.once arrivals llm.state corr (lfd ∷ fds) in
      finish-closes {dm = dm} lfd r fds after os closing (rw l at e)

  identified-closes :
      (o : Options) (loaded : Result Identity) (fds after : List ℕ) (os : List Outcome)
      → identified h rounds fuel arrivals o fds loaded ≡ exited 0 os after
      → (after ≡ fds) × ((id : Identity) × (loaded ≡ ok id))
  unfolding tcp_listen
  identified-closes o (err why) fds after os e = cc
  identified-closes o (ok id) fds after os e =
      let a = h.listen o.port o.bind_ip in
      (
        listened-closes o id (tcp_listen a fds) fds after os
            (listen_address-IsListening a a.address fds) e,
        (id, refl),
      )

  with_options-closes :
      (p : Parsed) (fds after : List ℕ) (os : List Outcome)
      → with_options h rounds fuel arrivals fds p ≡ exited 0 os after
      → (after ≡ fds)
        × (o : Options) × (id : Identity) × (p ≡ accepted o)
        × (load_identity h.lib h.files
              (o.id_prefix ++ text ".pub")
              (o.id_prefix ++ text ".key")
              o.peer_pub
            ≡ ok id)
  unfolding run_daemon
  with_options-closes (refused bad_number) fds after os e = cc
  with_options-closes (refused no_value) fds after os e = cc
  with_options-closes (refused (unknown_argument a)) fds after os e = cc
  with_options-closes (accepted o) fds after os e =
      let (closed, (id, loaded)) = identified-closes o _ fds after os e in
      (closed, o, id, refl, loaded)

-- An analyzer that returns 0 leaves the descriptors as it found them, whatever connections came, whether
-- their service ended with the peer's closing or with an exception, and however the loop ended; and its
-- command line was accepted and its identity loaded.
pub main-closes :
    (h : Host) (rounds fuel : ℕ) (arrivals : Arrivals h) (argv : List Bytes) (fds after : List ℕ)
    (os : List Outcome)
    → main h rounds fuel arrivals argv fds ≡ exited 0 os after
    → (after ≡ fds)
      × (o : Options) × (id : Identity) × (parse_args h.stoi argv ≡ accepted o)
      × (load_identity h.lib h.files
            (o.id_prefix ++ text ".pub")
            (o.id_prefix ++ text ".key")
            o.peer_pub
          ≡ ok id)
unfolding main
main-closes h rounds fuel arrivals argv fds after os e =
    with_options-closes h rounds fuel arrivals (parse_args h.stoi argv) fds after os e
