-- ===== src/Fs/Disk.antt =====
-- shell_in_c/fs/include/disk.h: what the file system asks of a disk. The two implementations stand
-- behind this interface; the block store at the end is the simplest one.
use bit_computer.Common.{ℕ, ◌<◌, ◌≡◌, arith, Bytes, ◌==◌, ltb, if◌then◌else◌}
use bit_computer.Fs.Layout.{block_num, block_size}

-- `disk_read` fills the buffer that it is given and returns it, `disk_write` stores a block. The law:
-- a read returns the last block that was written there, and other blocks are not touched. A disk that fails
-- (`DISK_FAILURE`, which fs.c does not look at) or that takes memory of its own is not one of these.
pub record DiskApi : Type 1 where
  pub Disk : Type 0
  pub disk_read : Disk → ℕ → Bytes → Bytes
  pub disk_write : Disk → ℕ → Bytes → Disk
  pub read-write :
      (d : Disk) (b : ℕ) (x : Bytes) (c : ℕ) (buf : Bytes) (k : ℕ)
      → b < block_num
      → c < block_num
      → k < block_size
      → disk_read (disk_write d b x) c buf k ≡ (if b == c then x k else disk_read d c buf k)

-- An array of blocks.
abbrev pub Store : Type 0
Store = ℕ → Bytes

unfoldable pub store_read : Store → ℕ → Bytes → Bytes
store_read d b buf k = if ltb k block_size then d b k else buf k

unfoldable pub store_write : Store → ℕ → Bytes → Store
store_write d b x c = if b == c then x else d c

pub store-read-write :
    (d : Store) (b : ℕ) (x : Bytes) (c : ℕ) (buf : Bytes) (k : ℕ)
    → b < block_num
    → c < block_num
    → k < block_size
    → store_read (store_write d b x) c buf k ≡ (if b == c then x k else store_read d c buf k)
unfolding store_read store_write
store-read-write d b x c buf k hb hc hk = ground arith

abbrev pub block_store : DiskApi
block_store = record {
  Disk = Store;
  disk_read = store_read;
  disk_write = store_write;
  read-write = store-read-write;
}
