-- ===== src/Router.antt =====
-- src/proxy/router/mod.rs and the types of src/config/routes.rs that it reads.
pub mod Config
pub mod Route
pub mod Rules
mod Examples
