-- ===== src/Ipc.antt =====
-- The protocol between the daemon and its clients (crates/caw-ipc/src).
pub mod Frame
