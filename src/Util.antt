-- ===== src/Util.antt =====
-- Helpers of src/util.
pub mod Cron
