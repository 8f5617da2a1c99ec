-- ===== src/Fs/Client.antt =====
-- A client of the file system: sequences of calls of shell_in_c/fs/src/common/fs.c on a disk that has just been formatted
-- and mounted, and the abstract files that it sees.
pub mod Represents
pub mod Calls
pub mod Reads
pub mod Refine
pub mod Remount
mod Witnesses
use bit_computer.Common.{
  Bool, Bytes, List, Run, [], bytes_of, if◌then◌else◌, leb, length, ltb, negsuc, ok, pos, true,
  zeros, ℕ, ℤ, ◌&&◌, ◌+◌, ◌-◌, ◌==◌, ◌>>=◌, ◌||◌, ◌∷◌,
}
use bit_computer.Fs.Bitmap.{fs_mount}
use bit_computer.Fs.Create.{fs_create}
use bit_computer.Fs.Disk.{DiskApi}
use bit_computer.Fs.Format.{fs_format}
use bit_computer.Fs.Layout.{block_size, inode_count}
use bit_computer.Fs.Read.{fs_read, fs_stat}
use bit_computer.Fs.State.{State}
use bit_computer.Fs.Write.{fs_write}

-- A call with its arguments. `create` has none; `write` has the file, the bytes, their length and the offset; `read` has the
-- file, what stands in the caller's buffer, the length and the offset.
pub data Op : Type 0 where
  create_op : Op
  write_op : ℕ → Bytes → ℕ → ℕ → Op
  read_op : ℕ → Bytes → ℕ → ℕ → Op
  stat_op : ℕ → Op

-- What a call gives: its result, and for a read what the buffer holds up to the length.
abbrev Answer : Type 0
Answer = ℤ × List ℕ

module _ {D : DiskApi} where
  unfoldable pub call : Op → State D → Run (Answer × State D)
  call create_op s = do (result, s') ← fs_create s; ok ((result, []), s')
  call (write_op n bytes length offset) s = do
    (result, s') ← fs_write s n bytes length offset
    ok ((result, []), s')
  call (read_op n buf length offset) s = do
    (result, buf', s') ← fs_read s n buf length offset
    ok ((result, bytes_of length 0 buf'), s')
  call (stat_op n) s = do (result, s') ← fs_stat s n; ok ((result, []), s')

  unfoldable pub calls : List Op → State D → Run (List Answer × State D)
  calls [] s = ok ([], s)
  calls (op ∷ ops) s = do
    (reply, s') ← call op s
    (answers, s'') ← calls ops s'
    ok (reply ∷ answers, s'')

  -- The calls on a disk that is formatted and mounted first. `false` if that fails.
  unfoldable pub session : List Op → State D → Run ((Bool × List Answer) × State D)
  session ops s = do
    let (labelled, s₁) = fs_format s
    (mounted, s₂) ← fs_mount s₁
    (answers, s₃) ← calls ops s₂
    ok ((labelled && mounted, answers), s₃)

-- A file as a client sees it: its size and its bytes.
pub record Content : Type 0 where
  pub size : ℕ
  pub byte : Bytes

-- The files are numbered in the order of their creation.
pub record Files : Type 0 where
  pub count : ℕ
  pub file : ℕ → Content

abbrev pub no_files : Files
no_files = record { count = 0; file = λ n. record { size = 0; byte = zeros } }

-- A write keeps what is before the offset and ends the file.
abbrev pub overwrite : Bytes → ℕ → ℕ → Content → Content
overwrite bytes length offset f = record {
  size = offset + length;
  byte = λ p. if ltb p offset then f.byte p else bytes (p - offset);
}

abbrev pub update : ℕ → Content → (ℕ → Content) → ℕ → Content
update n f file m = if n == m then f else file m

-- The same calls on the abstract files.
unfoldable pub expected : Op → Files → Answer
expected create_op fs = ((if fs.count == inode_count then negsuc 0 else pos fs.count), [])
expected (write_op n bytes length offset) fs = (pos 0, [])
expected (read_op n buf length offset) fs =
    let f = fs.file n in
    if leb fs.count n || (f.size == 0)
    then (pos 0, bytes_of length 0 buf)
    else if ltb f.size length
    then (negsuc 2, bytes_of length 0 buf)
    else (pos 0, bytes_of length 0 f.byte)
expected (stat_op n) fs = ((if ltb n fs.count then pos (fs.file n).size else negsuc 0), [])

unfoldable pub after : Op → Files → Files
after create_op fs = if fs.count == inode_count then fs else record {
  count = fs.count + 1;
  file = update fs.count (record { size = 0; byte = zeros }) fs.file;
}
after (write_op n bytes length offset) fs = record fs {
  file = update n (overwrite bytes length offset (fs.file n)) fs.file;
}
after (read_op n buf length offset) fs = fs
after (stat_op n) fs = fs

unfoldable pub replay : List Op → Files → List Answer
replay [] fs = []
replay (op ∷ ops) fs = expected op fs ∷ replay ops (after op fs)

unfoldable pub replay_files : List Op → Files → Files
replay_files [] fs = fs
replay_files (op ∷ ops) fs = replay_files ops (after op fs)

-- The calls that are considered: a write goes to a file that exists, leaves no gap and ends in the first block; the other
-- calls name an inode of the disk.
unfoldable pub allowed : Op → Files → Bool
allowed create_op fs = true
allowed (write_op n bytes length offset) fs =
    ltb n fs.count
    && (leb offset (fs.file n).size && (ltb offset block_size && leb (offset + length) block_size))
allowed (read_op n buf length offset) fs = ltb n inode_count
allowed (stat_op n) fs = ltb n inode_count

unfoldable pub all_allowed : List Op → Files → Bool
all_allowed [] fs = true
all_allowed (op ∷ ops) fs = allowed op fs && all_allowed ops (after op fs)
