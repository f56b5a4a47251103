-- ===== src/Data.antt =====
-- data: the generator of example failures.
pub mod Generator
