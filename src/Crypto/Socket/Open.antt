-- ===== src/Crypto/Socket/Open.antt =====
-- The creation of sockets: `tcp_listen`, `tcp_accept`, `tcp_connect` and `close_fd` of
-- crypto/src/socket.cpp. The state is the list of the descriptors that the process has open; what the
-- calls of the operating system answer is an argument.
use pqc_edr.Base.{
  ℕ, ◌≡◌, ◌≢◌, ◌⊎◌, refl, Bool, true, false, Bool-cases, inl, inr, not, Option, none, some, List,
  [], ◌∷◌, ◌==◌, if◌then◌else◌, ==_iff,
}
use pqc_edr.Crypto.Result.{
  Result, ok, err, socket, bad_address, unresolved, socket_failed, bind_failed, listen_failed,
  accept_failed, connect_failed, no_name,
}

-- What `inet_pton`, `socket`, `bind` and `listen` answer.
pub record ListenAnswers : Type 0 where
  pub address : Option ℕ
  pub fd : Option ℕ
  pub bound : Bool
  pub listening : Bool

-- What `getaddrinfo`, `socket` and `connect` answer.
pub record ConnectAnswers : Type 0 where
  pub address : Option ℕ
  pub fd : Option ℕ
  pub is_connected : Bool

-- `::close` of an open descriptor.
unfoldable pub close : ℕ → List ℕ → List ℕ
close fd [] = []
close fd (x ∷ fds) = if x == fd then fds else x ∷ close fd fds

-- `none` is a negative number.
unfoldable pub close_fd : Option ℕ → List ℕ → List ℕ
close_fd none fds = fds
close_fd (some fd) fds = close fd fds

-- The socket that listens, once it is made.
abbrev pub listen_on : ListenAnswers → ℕ → List ℕ → Result ℕ × List ℕ
listen_on a fd fds =
    if not a.bound
    then (err (socket bind_failed), fd ∷ fds)
    else if not a.listening
    then (err (socket listen_failed), fd ∷ fds)
    else (ok fd, fd ∷ fds)

abbrev pub listen_socket : ListenAnswers → Option ℕ → List ℕ → Result ℕ × List ℕ
listen_socket a none fds = (err (socket socket_failed), fds)
listen_socket a (some fd) fds = listen_on a fd fds

abbrev pub listen_address : ListenAnswers → Option ℕ → List ℕ → Result ℕ × List ℕ
listen_address a none fds = (err (socket bad_address), fds)
listen_address a (some addr) fds = listen_socket a a.fd fds

unfoldable pub tcp_listen : ListenAnswers → List ℕ → Result ℕ × List ℕ
tcp_listen a fds = listen_address a a.address fds

-- `tcp_local_port`, given the port that `getsockname` finds.
unfoldable pub tcp_local_port : Option ℕ → Result ℕ
tcp_local_port none = err (socket no_name)
tcp_local_port (some port) = ok port

unfoldable pub tcp_accept : Option ℕ → List ℕ → Result ℕ × List ℕ
tcp_accept none fds = (err (socket accept_failed), fds)
tcp_accept (some fd) fds = (ok fd, fd ∷ fds)

abbrev pub connect_socket : ConnectAnswers → Option ℕ → List ℕ → Result ℕ × List ℕ
connect_socket a none fds = (err (socket socket_failed), fds)
connect_socket a (some fd) fds =
    if not a.is_connected
    then (err (socket connect_failed), close fd (fd ∷ fds))
    else (ok fd, fd ∷ fds)

abbrev pub connect_address : ConnectAnswers → Option ℕ → List ℕ → Result ℕ × List ℕ
connect_address a none fds = (err (socket unresolved), fds)
connect_address a (some addr) fds = connect_socket a a.fd fds

unfoldable pub tcp_connect : ConnectAnswers → List ℕ → Result ℕ × List ℕ
tcp_connect a fds = connect_address a a.address fds

-- Closing the newest descriptor gives the others back.
pub close_newest : (fd : ℕ) (fds : List ℕ) → close fd (fd ∷ fds) ≡ fds
unfolding close
close_newest fd fds = let same : (fd == fd) ≡ true = (==_iff fd fd).1 refl in rw same refl

-- What `tcp_connect` leaves open is its result: with a descriptor, that one and what was open before, and
-- with an exception, only what was open before.
abbrev pub IsKept : List ℕ → Result ℕ → List ℕ → Type 0
IsKept fds (err why) after = after ≡ fds
IsKept fds (ok fd) after = after ≡ fd ∷ fds

connect_socket-IsKept :
    (a : ConnectAnswers) (fd : Option ℕ) (fds : List ℕ)
    → IsKept fds (connect_socket a fd fds).0 (connect_socket a fd fds).1
connect_socket-IsKept a none fds = refl
connect_socket-IsKept a (some fd) fds = elim (Bool-cases a.is_connected) [
  | inl e ↦ rw e refl
  | inr e ↦ rw e (close_newest fd fds)
]

connect_address-IsKept :
    (a : ConnectAnswers) (address : Option ℕ) (fds : List ℕ)
    → IsKept fds (connect_address a address fds).0 (connect_address a address fds).1
connect_address-IsKept a none fds = refl
connect_address-IsKept a (some addr) fds = connect_socket-IsKept a a.fd fds

tcp_connect-IsKept :
    (a : ConnectAnswers) (fds : List ℕ) → IsKept fds (tcp_connect a fds).0 (tcp_connect a fds).1
unfolding tcp_connect
tcp_connect-IsKept a fds = connect_address-IsKept a a.address fds

listen_on-leaks :
    (a : ListenAnswers) (fd : ℕ) (fds : List ℕ)
    → (a.bound ≡ false) ⊎ (a.listening ≡ false)
    → ((listen_on a fd fds).1 ≡ fd ∷ fds) × ((v : ℕ) → (listen_on a fd fds).0 ≢ ok v)
listen_on-leaks a fd fds bad = elim (Bool-cases a.bound) [
  | inr e ↦ rw e (refl, λ v h. cc)
  | inl e ↦ elim bad [ inl f ↦ cc | inr f ↦ rw (e, f) (refl, λ v h. cc) ]
]

-- `tcp_connect` keeps the descriptors in order and `tcp_listen` does not: with an exception `tcp_connect`
-- leaves open what was open before, and with a descriptor that one too; `tcp_listen`, whose address is
-- good and whose socket could be made, leaves it open also where it throws because `bind` or `listen`
-- fails.
pub listen_leaks :
    (a : ListenAnswers) (b : ConnectAnswers) (addr fd : ℕ) (fds : List ℕ)
    → a.address ≡ some addr
    → a.fd ≡ some fd
    → (a.bound ≡ false) ⊎ (a.listening ≡ false)
    → IsKept fds (tcp_connect b fds).0 (tcp_connect b fds).1
      × ((tcp_listen a fds).1 ≡ fd ∷ fds)
      × ((v : ℕ) → (tcp_listen a fds).0 ≢ ok v)
unfolding tcp_listen
listen_leaks a b addr fd fds ha hf bad =
    let (left, thrown) = listen_on-leaks a fd fds bad in
    (tcp_connect-IsKept b fds, rw (ha, hf) left, rw (ha, hf) thrown)
