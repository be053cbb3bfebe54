-- ===== src/Client.antt =====
-- pkg/sessionclient: the client library.
pub mod Stream
pub mod Cipher
