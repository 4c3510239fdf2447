-- ===== src/Nodes.antt =====
-- Nodes of src/nodes that keep a state of their own.
pub mod RateLimit
pub mod Watchdog
pub mod StateStore
