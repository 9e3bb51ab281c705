-- ===== src/Dns.antt =====
-- src/dns/*.rs: the wire format of queries and responses.
pub mod Wire
mod Examples
