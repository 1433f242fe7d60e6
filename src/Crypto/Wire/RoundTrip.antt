-- ===== src/Crypto/Wire/RoundTrip.antt =====
-- The messages of crypto/src/wire.cpp are read back as they were written.
use pqc_edr.Base.{
  ◌+◌, ◌-◌, ◌≡◌, ◌≢◌, ◌≤◌, [], ◌++◌, length, take, arith, take_all, ltb, is_empty, false,
}
use pqc_edr.Base.Words.{Bytes}
use pqc_edr.Crypto.Result.{ok}
use pqc_edr.Crypto.Wire.{
  client_hello, server_hello, ClientHello, ServerHello, frame, serialize_client_hello,
  parse_client_hello, serialize_server_hello, parse_server_hello, server_auth, client_auth,
  serialize_server_auth, parse_server_auth, serialize_client_auth, parse_client_auth,
}
use pqc_edr.Crypto.Wire.Frames.{framed, open-framed}
use pqc_edr.Crypto.Wire.Hello.{
  client_fields, server_fields, parse-framed_client, parse-framed_server, split_hello-join,
  header_length,
}

rest_of_auth : (s : Bytes) → ltb (length s + 4) (4 + (length s + 4 - 4)) ≡ false
rest_of_auth s = ground arith

server_auth-framed :
    (s : Bytes)
    → length s ≤ 0xffff
    → s ≢ []
    → parse_server_auth (framed server_auth s) ≡ ok (record { signature = s })
unfolding parse_server_auth
server_auth-framed s fits h =
    let full : is_empty s ≡ false = ground arith in
    let whole : take (length s + 4 - 4) s ≡ s = take_all _ s (omega arith) in
    simp (open-framed server_auth s fits, header_length, rest_of_auth, whole, full)

client_auth-framed :
    (s : Bytes)
    → length s ≤ 0xffff
    → s ≢ []
    → parse_client_auth (framed client_auth s) ≡ ok (record { signature = s })
unfolding parse_client_auth
client_auth-framed s fits h =
    let full : is_empty s ≡ false = ground arith in
    let whole : take (length s + 4 - 4) s ≡ s = take_all _ s (omega arith) in
    simp (open-framed client_auth s fits, header_length, rest_of_auth, whole, full)

-- A ClientHello that was serialized parses back to itself, if its KEM key is not empty.
pub parse-serialize_client_hello :
    (m : ClientHello) (f : Bytes)
    → serialize_client_hello m ≡ ok f
    → m.mlkem_pub ≢ []
    → parse_client_hello f ≡ ok m
unfolding serialize_client_hello frame
parse-serialize_client_hello m f e h =
    let p : Bytes = (m.client_random ++ m.x25519_pub) ++ m.mlkem_pub in
    let ha : length m.client_random ≡ 32 = ground arith in
    let hb : length m.x25519_pub ≡ 32 = ground arith in
    let fits : length p ≤ 0xffff = ground arith in
    let written : f ≡ framed client_hello p = ground arith in
    rw (written, parse-framed_client p fits) (split_hello-join _ client_fields _ _ _ ha hb h)

-- A ServerHello that was serialized parses back to itself, if its KEM ciphertext is not empty.
pub parse-serialize_server_hello :
    (m : ServerHello) (f : Bytes)
    → serialize_server_hello m ≡ ok f
    → m.mlkem_ct ≢ []
    → parse_server_hello f ≡ ok m
unfolding serialize_server_hello frame
parse-serialize_server_hello m f e h =
    let p : Bytes = (m.server_random ++ m.x25519_pub) ++ m.mlkem_ct in
    let ha : length m.server_random ≡ 32 = ground arith in
    let hb : length m.x25519_pub ≡ 32 = ground arith in
    let fits : length p ≤ 0xffff = ground arith in
    let written : f ≡ framed server_hello p = ground arith in
    rw (written, parse-framed_server p fits) (split_hello-join _ server_fields _ _ _ ha hb h)

-- Both authentication messages parse back to themselves after they were serialized, if the
-- signature is not empty.
pub parse-serialize_auth :
    (signature f g : Bytes)
    → signature ≢ []
    → serialize_server_auth (record { signature = signature }) ≡ ok f
    → serialize_client_auth (record { signature = signature }) ≡ ok g
    → (parse_server_auth f ≡ ok (record { signature = signature }))
      × (parse_client_auth g ≡ ok (record { signature = signature }))
unfolding serialize_server_auth serialize_client_auth frame
parse-serialize_auth s f g h e d =
    let fits : length s ≤ 0xffff = ground arith in
    let written : f ≡ framed server_auth s = ground arith in
    let written' : g ≡ framed client_auth s = ground arith in
    (rw written (server_auth-framed s fits h), rw written' (client_auth-framed s fits h))
