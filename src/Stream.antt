-- ===== src/Stream.antt =====
-- The interface of the streams of include/7zip.hpp, and those of src/7zip/ReadStream.cpp and src/7zip/WriteStream.cpp.
pub mod Interface
pub mod Read
pub mod Write
