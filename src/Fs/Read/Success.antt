-- ===== src/Fs/Read/Success.antt =====
-- `fs_read` and `fs_stat` on the files of a consistent file system, and the round trip.
use bit_computer.Common.{
  ==_ne, Bytes, ap, ap₂, arith, dec_lt, if◌then◌else◌, le→leb, le→ltb, ltb, lt→ltb, ok, pos, refl,
  suc, sym, zero, ℕ, ◌*◌, ◌-◌, ◌<◌, ◌^◌, ◌∙◌, ◌≡◌, ◌≢◌, ◌≤◌,
}
use bit_computer.Fs.Disk.{DiskApi}
use bit_computer.Fs.Layout.{block_num, block_size, direct, inode_count, size}
use bit_computer.Fs.Read.{copy_rounds, fs_read, fs_read_inode, read_blocks}
use bit_computer.Fs.Read.Copy.{copy_rounds-Copied}
use bit_computer.Fs.State.{Bitmap, State, fs_read_block, malloc}
use bit_computer.Fs.Valid.View.{IsValid, inode_block, inode_index, sizes, valids}
use bit_computer.Fs.Write.{direct_pointers_len, fs_find_inode_2, wrap}
use bit_computer.Fs.Write.Final.{file_byte}
use bit_computer.Fs.Write.Success.{blocks_of-pos}
use Prim.Native.Nat.{min as least}

module _ (D : DiskApi) (d : D.Disk) (b : Bytes) (j : ℕ) where
  -- With nothing left no further block is read.
  pub read_blocks_over : (n i : ℕ) (buf : Bytes) → read_blocks D n i d b j 0 buf ≡ ok (buf, 0)
  unfolding read_blocks
  read_blocks_over zero i buf = refl
  read_blocks_over (suc n) i buf = refl

  -- The first round leaves nothing.
  read_blocks-first :
      (n remaining : ℕ) (buf buf' : Bytes)
      → 0 < remaining
      → direct b j 0 < block_num
      → copy_rounds remaining (fs_read_block D d (direct b j 0)) remaining buf ≡ ok (buf', 0)
      → read_blocks D (suc n) 0 d b j remaining buf ≡ ok (buf', 0)
  unfolding read_blocks
  read_blocks-first n remaining buf buf' more small run =
      let block : wrap (direct b j 0) ≡ direct b j 0 = omega arith in
      rw (lt→ltb _ _ more, read_blocks) (rw block (rw run (read_blocks_over n 1 buf')))

module _ {D : DiskApi} (s : State D) (bm : Bitmap) (v : IsValid s bm) (n : ℕ) (hn : n < inode_count)
    (used : valids D s.disk n ≢ 0) where
  abbrev b : Bytes
  b = inode_block D s.disk n

  abbrev j : ℕ
  j = inode_index n

  available_suc : direct_pointers_len b j ≡ suc (direct_pointers_len b j - 1)
  available_suc = omega (arith, blocks_of-pos s bm v n hn used)

  first_bytes :
      (k : ℕ) → k < block_size → file_byte D s.disk n k ≡ fs_read_block D s.disk (direct b j 0) k
  first_bytes k h = ap₂ (λ l i. fs_read_block D s.disk (direct b j l) i) (omega arith) (omega arith)

  module _ (buf : Bytes) (length offset : ℕ) (more : 0 < length)
      (within : length ≤ sizes D s.disk n) (small : length < 2 ^ 15)
      (memory : 2 * block_size ≤ s.heap) where
    fs_read-starts :
        fs_read s n buf length offset ≡ fs_read_inode s (s.heap - block_size) b j buf length
    unfolding fs_read malloc fs_find_inode_2
    fs_read-starts = ground arith

    fs_read_inode-ok :
        (buf' : Bytes) (rest : ℕ)
        → read_blocks D (direct_pointers_len b j) 0 s.disk b j length buf ≡ ok (buf', rest)
        → fs_read_inode s (s.heap - block_size) b j buf length ≡ ok (pos 0, buf', s)
    unfolding fs_read_inode malloc
    fs_read_inode-ok buf' rest run =
        rw
          (
            ==_ne _ 0 used,
            ==_ne (size b j) 0 (omega arith),
            le→ltb (size b j) length within,
            le→leb block_size (s.heap - block_size) (omega arith),
          )
          (rw run (ap (λ h. ok (pos 0, buf', record s { heap = h })) (omega arith)))

    -- In a consistent file system with memory for two blocks, a read of a file in use, of at least one
    -- byte, within its size and below 2^15 bytes, returns 0 and leaves the state as it was. The first
    -- 512 bytes at most of the buffer come from the start of the file; the others keep what stood
    -- there, whatever the length and the offset are.
    pub fs_read-Copied :
        (buf' : Bytes) × (fs_read s n buf length offset ≡ ok (pos 0, buf', s))
        × ((k : ℕ)
            → buf' k ≡ (if ltb k (least block_size length) then file_byte D s.disk n k else buf k))
    fs_read-Copied =
        let a = v.allocated in
        let first = fs_read_block D s.disk (direct b j 0) in
        let available = direct_pointers_len b j in
        let (buf', run, c) = copy_rounds-Copied length first length buf (omega arith) small in
        let run₁ =
          read_blocks-first D s.disk b j (available - 1) length buf buf' more
            (a.in_range n 0 hn (omega arith) used) run in
        (
          buf',
          fs_read-starts ∙ fs_read_inode-ok buf' 0 (rw available_suc run₁),
          λ k. elim (dec_lt k (least block_size length)) [
            | yes lo ↦ c k ∙ rw (lt→ltb _ _ lo) (sym (first_bytes k (omega arith)))
            | no hi ↦ c k ∙ rw (le→ltb k (least block_size length) (omega arith))
          ],
        )
