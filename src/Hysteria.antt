-- ===== src/Hysteria.antt =====
-- src/protocol/hysteria/qpack.rs: QUIC variable-length integers, QPACK integers and header blocks.
pub mod Varint
mod StaticTable
pub mod QpackInt
pub mod Qpack
mod Examples
