-- ===== src/Utils.antt =====
-- Helpers of lib/Utils.C that work on text.
pub mod Split
