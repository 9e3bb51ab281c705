-- ===== src/AnyTls.antt =====
-- src/protocol/anytls: the padding of a session's frames, and the frames that a session handles.
pub mod Padding
pub mod Session
mod Examples
