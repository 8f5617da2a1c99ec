-- ===== src/Disks/File.antt =====
-- shell_in_c/fs/src/fuse/disk.c: the disk in the file /tmp/disk.
use bit_computer.Common.{
  Bool, Bytes, Option, arith, if◌then◌else◌, leb, ltb, negsuc, none, pos, refl, some, true, zeros,
  ℕ, ℤ, ◌&&◌, ◌*◌, ◌+◌, ◌-◌, ◌<◌, ◌==◌, ◌≡◌,
}
use bit_computer.Fs.Layout.{block_size}

-- A file: its size and its bytes.

pub record File : Type 0 where
  pub size : ℕ
  pub content : Bytes

-- The file, if there is one, and whether it may be written.
pub record Host : Type 0 where
  pub file : Option File
  pub writable : Bool

-- `fopen(disk_path, "r")`
unfoldable pub open_read : Host → Option File
open_read h = h.file

-- `fopen(disk_path, "w")` leaves an empty file.
unfoldable pub open_write : Host → Option File
open_write h = if h.writable then some (record { size = 0; content = zeros }) else none

-- `fread(buf, n, 1, f)` at the position `at`: as many bytes as the file has there.
unfoldable pub fread : File → ℕ → Bytes → ℕ → Bytes
fread f at buf n k = if ltb k n && ltb (at + k) f.size then f.content (at + k) else buf k

-- `fwrite(bytes, n, 1, f)` at the position `at`; a gap before it reads as zeros.
unfoldable pub fwrite : File → ℕ → Bytes → ℕ → File
fwrite f at bytes n = record {
  size = if ltb f.size (at + n) then at + n else f.size;
  content = λ k.
      if leb at k && ltb k (at + n)
      then bytes (k - at)
      else if ltb k f.size
      then f.content k
      else 0;
}

-- `none` is the result -1; in the other case the function ends without a value.
unfoldable pub disk_read : ℕ → Bytes → Host → Option Bytes
disk_read block buf h = elim (open_read h) [
  | none ↦ none
  | some f ↦ some (fread f (block * block_size) buf block_size)
]

unfoldable pub disk_write : ℕ → Bytes → Host → ℤ × Host
disk_write block bytes h = elim (open_write h) [
  | none ↦ (negsuc 0, h)
  | some f ↦ (pos 0, record h { file = some (fwrite f (block * block_size) bytes block_size) })
]

-- A write to a file that may be written returns 0 and leaves the disk with this block alone: a read of it
-- gives the bytes, a read of a block before it gives zeros, and a read of a block after it leaves the
-- buffer as it is.
pub disk_read-disk_write :
    (b c : ℕ) (bytes buf : Bytes) (h : Host)
    → h.writable ≡ true
    → ((disk_write b bytes h).0 ≡ pos 0)
      × (buf' : Bytes) × (disk_read c buf (disk_write b bytes h).1 ≡ some buf')
      × ((k : ℕ)
          → k < block_size
          → buf' k ≡ (if ltb c b then 0 else if c == b then bytes k else buf k))
unfolding disk_read disk_write open_read open_write fread fwrite
disk_read-disk_write b c bytes buf h w = rw w (refl, _, refl, λ k hk. ground arith)
