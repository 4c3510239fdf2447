-- ===== src/Examples.antt =====
-- Concrete inputs on which the theorems are applied.
pub mod Wire
pub mod Streams
pub mod Tunnels
pub mod Patterns
pub mod Overlaps
pub mod Nodes
pub mod Watchers
pub mod Schedules
pub mod Gateways
pub mod Values
pub mod Ciphers
pub mod Sessions
