-- ===== src/Watchdog.antt =====
-- The training watchdog: pure health decisions, the trainer's side of the protocol, and the
-- external monitor.
pub mod Health
pub mod Runner
pub mod Qualification
pub mod Monitor
pub mod Handshake
