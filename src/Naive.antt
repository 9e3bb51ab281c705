-- ===== src/Naive.antt =====
-- src/protocol/naive: the padding of the first frames of a connection.
pub mod Padding
mod Examples
