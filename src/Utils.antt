-- ===== src/Utils.antt =====
-- The text functions of utils/.
pub mod Str
pub mod Tube
