-- ===== src/Fs/Valid.antt =====
-- What makes a mounted file system consistent: the inodes on the disk and the bitmap in memory agree
-- on which inode owns which block.
pub mod Table
pub mod View
pub use View.*
