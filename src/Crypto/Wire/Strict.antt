-- ===== src/Crypto/Wire/Strict.antt =====
-- The parsers of crypto/src/wire.cpp accept nothing but what the serializers write.
use pqc_edr.Base.{◌≡◌, ◌≢◌, ◌≤◌, [], ◌++◌, length, drop, arith}
use pqc_edr.Base.Words.{Bytes, AreBytes}
use pqc_edr.Crypto.Result.{ok, >>=-eq-ok}
use pqc_edr.Crypto.Wire.{
  client_hello, server_hello, ClientHello, ServerHello, open_frame, serialize_client_hello,
  parse_client_hello, serialize_server_hello, parse_server_hello,
}
use pqc_edr.Crypto.Wire.Frames.{framed, frame_ok, open_frame_inv}
use pqc_edr.Crypto.Wire.Hello.{
  client_fields, server_fields, parse-framed_client, parse-framed_server, split_hello-inv, rejoin,
}
use pqc_edr.Crypto.Wire.ReaderOps.{Reader}

serialize_client_ok :
    (a b c : Bytes)
    → length a ≡ 32
    → length b ≡ 32
    → length ((a ++ b) ++ c) ≤ 0xffff
    → serialize_client_hello (client_fields a b c) ≡ ok (framed client_hello ((a ++ b) ++ c))
unfolding serialize_client_hello
serialize_client_ok a b c ha hb fits = ground (arith, frame_ok client_hello ((a ++ b) ++ c))

serialize_server_ok :
    (a b c : Bytes)
    → length a ≡ 32
    → length b ≡ 32
    → length ((a ++ b) ++ c) ≤ 0xffff
    → serialize_server_hello (server_fields a b c) ≡ ok (framed server_hello ((a ++ b) ++ c))
unfolding serialize_server_hello
serialize_server_ok a b c ha hb fits = ground (arith, frame_ok server_hello ((a ++ b) ++ c))

client-opened :
    (f : Bytes) (m : ClientHello)
    → parse_client_hello f ≡ ok m
    → (r : Reader) × (open_frame f client_hello ≡ ok r)
unfolding parse_client_hello
client-opened f m e = let (r, opened, _) = >>=-eq-ok (open_frame f client_hello) _ e in (r, opened)

server-opened :
    (f : Bytes) (m : ServerHello)
    → parse_server_hello f ≡ ok m
    → (r : Reader) × (open_frame f server_hello ≡ ok r)
unfolding parse_server_hello
server-opened f m e = let (r, opened, _) = >>=-eq-ok (open_frame f server_hello) _ e in (r, opened)

serialize-parse_client_hello :
    (f : Bytes) (m : ClientHello)
    → AreBytes f
    → parse_client_hello f ≡ ok m
    → (serialize_client_hello m ≡ ok f) × (m.mlkem_pub ≢ [])
serialize-parse_client_hello f m bytes e =
    let (r, opened) = client-opened f m e in
    let (p, written, fits, _) = open_frame_inv f client_hello r bytes opened in
    let split = rw (written, parse-framed_client p fits) at e in
    let (built, ha, hb, full) = split_hello-inv _ client_fields p m split in
    let joined =
      rw (rejoin p) at (serialize_client_ok _ _ (drop 64 p) ha hb (rw (rejoin p) fits)) in
    rw (← built, written) (joined, full)

serialize-parse_server_hello :
    (f : Bytes) (m : ServerHello)
    → AreBytes f
    → parse_server_hello f ≡ ok m
    → (serialize_server_hello m ≡ ok f) × (m.mlkem_ct ≢ [])
serialize-parse_server_hello f m bytes e =
    let (r, opened) = server-opened f m e in
    let (p, written, fits, _) = open_frame_inv f server_hello r bytes opened in
    let split = rw (written, parse-framed_server p fits) at e in
    let (built, ha, hb, full) = split_hello-inv _ server_fields p m split in
    let joined =
      rw (rejoin p) at (serialize_server_ok _ _ (drop 64 p) ha hb (rw (rejoin p) fits)) in
    rw (← built, written) (joined, full)

-- The parsers of both hello messages accept canonical frames only: a byte string that one of them parses
-- is the one that its `serialize` writes for the message it parses to, and that message has a KEM key, or
-- a KEM ciphertext.
pub serialize-parse_hello :
    (f g : Bytes) (m : ClientHello) (n : ServerHello)
    → AreBytes f
    → AreBytes g
    → parse_client_hello f ≡ ok m
    → parse_server_hello g ≡ ok n
    → (serialize_client_hello m ≡ ok f)
      × (m.mlkem_pub ≢ [])
      × (serialize_server_hello n ≡ ok g)
      × (n.mlkem_ct ≢ [])
serialize-parse_hello f g m n bytes_f bytes_g e h =
    let (client, key) = serialize-parse_client_hello f m bytes_f e in
    let (server, ct) = serialize-parse_server_hello g n bytes_g h in (client, key, server, ct)
