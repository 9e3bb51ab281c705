-- ===== src/Vless.antt =====
-- src/protocol/vless/*.rs: the request of a client.
pub mod Header
pub mod Vision
pub mod Encryption
mod Examples
