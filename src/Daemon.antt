-- ===== src/Daemon.antt =====
-- crates/cawd: the daemon that drives the engines.
pub mod Timers
