-- ===== src/Dpt.antt =====
-- The datapoint types of src/dpt whose values are truth values, integers, scenes, times and dates.
pub mod Codec
pub mod JsNumber
pub mod Numbers
pub mod Flags
pub mod Times
pub mod Lossless
pub mod Colours
pub mod Delivery
