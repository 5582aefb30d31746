-- ===== src/Archive.antt =====
-- src/7zip/Archive.cpp, over a handler of the 7zip library.
pub mod Callback
pub mod Property
pub mod Opening
pub mod Lifetime
pub mod Interface
pub mod Members
pub mod Loading
pub mod Method
pub mod Extractor
pub mod Format
pub mod Iterator
pub mod ProposedName
