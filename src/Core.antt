-- ===== src/Core.antt =====
-- crates/caw-core: what the daemon decides about networks.
pub mod Policy
pub mod Profile
pub mod Rsn
pub mod Failure
pub mod Auth
pub mod Conn
