-- ===== src/Limiter.antt =====
-- src/limiter/*.rs: the limits on a user's connections, devices and rate.
pub mod Connection
pub mod Device
pub mod IpCache
mod Examples
