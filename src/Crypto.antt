-- ===== src/Crypto.antt =====
-- The secure channel of crypto/: wire format, handshake, key schedule, record layer, sockets.
pub mod Result
pub mod Wire
pub mod Record
pub mod Socket
pub mod Primitives
pub mod Session
pub mod Handshake
pub mod IdentityFiles
