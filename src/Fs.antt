-- ===== src/Fs.antt =====
-- The file system (shell_in_c/fs).
pub mod Layout
pub mod Disk
pub mod State
pub mod Bitmap
pub mod Format
pub mod Create
pub mod Write
pub mod Read
pub mod Valid
pub mod Roundtrip
pub mod Client
pub mod Examples
mod Tests
mod Witnesses
