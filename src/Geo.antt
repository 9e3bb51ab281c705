-- ===== src/Geo.antt =====
-- src/geo/*.rs: the addresses of a country.
pub mod ProtoReader
pub mod Ranges
mod Examples
