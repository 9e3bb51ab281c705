-- ===== src/Security.antt =====
-- src/security/*.rs: the defense against repeated failures.
pub mod Defense
mod Examples
