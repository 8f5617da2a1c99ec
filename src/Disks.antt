-- ===== src/Disks.antt =====
-- The two implementations of the disk that the file system calls.
pub mod Serial
pub mod File
pub mod Link
mod Witnesses
