-- ===== src/Runtime.antt =====
-- src/runtime.
pub mod BusMonitor
