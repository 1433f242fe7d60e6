-- ===== src/Tests/Sockets.antt =====
-- The theorem on the creation of sockets in crypto/src/socket.cpp at a port that is taken.
use pqc_edr.Base.{ℕ, ◌≡◌, ◌≢◌, refl, inl, some, true, false, [], ◌∷◌}
use pqc_edr.Crypto.Result.{ok}
use pqc_edr.Crypto.Socket.Open.{
  ListenAnswers, ConnectAnswers, tcp_listen, tcp_connect, IsKept, listen_leaks,
}

abbrev taken : ListenAnswers
taken = record { address = some 1; fd = some 4; bound = false; listening = true }

abbrev refusing : ConnectAnswers
refusing = record { address = some 1; fd = some 4; is_connected = false }

-- A port that is taken: `bind` fails on the new descriptor 4, and so does a connection.
listen_leaks_example :
    IsKept (3 ∷ []) (tcp_connect refusing (3 ∷ [])).0 (tcp_connect refusing (3 ∷ [])).1
    × ((tcp_listen taken (3 ∷ [])).1 ≡ 4 ∷ 3 ∷ [])
    × ((v : ℕ) → (tcp_listen taken (3 ∷ [])).0 ≢ ok v)
listen_leaks_example = listen_leaks taken refusing 1 4 (3 ∷ []) refl refl (inl refl)
