-- ===== src/Vless/Encryption.antt =====
-- src/protocol/vless/encryption: the filter that hides the headers of records, and the tickets of
-- sessions.
pub mod Xor
pub mod Session
mod Examples
pub mod Mlkem
pub mod Keccak
