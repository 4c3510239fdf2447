-- ===== src/Core.antt =====
-- The protocol layer, src/core: addresses, the cEMI message with its TPCI and APCI parts, and the
-- KNX/IP frames. A parser `fromKnx(raw, offset)` of the source reads `raw` from `offset` on only,
-- so a model's parser takes those bytes and returns the value with `bytesRead`.
pub mod Text
pub mod Address
pub mod Tpci
pub mod Apci
pub mod Cemi
pub mod Telegram
pub mod GaMatcher
pub mod Hpai
pub mod Header
pub mod Cri
pub mod Bodies
pub mod Frame
