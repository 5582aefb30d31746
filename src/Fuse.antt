-- ===== src/Fuse.antt =====
-- The parts of src/fuse3.cpp.
pub mod Stat
pub mod Tree
pub mod Password
pub mod Params
pub mod Operations
pub mod Loop
pub mod Lifecycle
