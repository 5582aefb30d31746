-- ===== src/Text.antt =====
-- The parts of src/string.cpp, and strtoll.
pub mod Encoding
pub mod Split
pub mod Chomp
pub mod Strtoll
