-- ===== src/Inode/Data.antt =====
-- Reading and writing the bytes of a file.
pub mod Store
pub mod Bytes
pub mod Write
pub mod Read
