-- ===== src/Conn.antt =====
-- src/conn/*.rs: what is read from a connection before its protocol.
pub mod ProxyHeader
pub mod ProxyLine
pub mod ProxyStream
pub mod Sniffer
mod Examples
