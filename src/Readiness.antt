-- ===== src/Readiness.antt =====
-- run/slave/src/runtime/readiness: the event loop on `mio`.
pub mod Token
pub mod Connection
pub mod Os
pub mod Worker
