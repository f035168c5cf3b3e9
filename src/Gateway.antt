-- ===== src/Gateway.antt =====
-- gateway/: the session-aware gateway in front of the model endpoints.
pub mod Binding
pub mod Admission
pub mod Sessions
pub mod Router
