-- ===== src/Fs/Roundtrip.antt =====
-- The operations of the file system one after the other.
use bit_computer.Common.{
  Bytes, ap, arith, fault, if◌then◌else◌, length, ltb, negsuc, null_pointer, ok, pos, to_int-small,
  ℕ, ◌*◌, ◌-◌, ◌<◌, ◌==◌, ◌^◌, ◌∙◌, ◌≡◌, ◌≢◌, ◌≤◌,
}
use bit_computer.Fs.Disk.{DiskApi}
use bit_computer.Fs.Layout.{block_size, inode_count}
use bit_computer.Fs.Read.{fs_read, fs_stat}
use bit_computer.Fs.Read.Success.{fs_read-Copied}
use bit_computer.Fs.State.{Bitmap, State, malloc}
use bit_computer.Fs.Valid.View.{IsValid, sizes, valids}
use bit_computer.Fs.Write.{fs_find_inode_2, fs_write}
use bit_computer.Fs.Write.Final.{Wrote, file_byte}
use bit_computer.Fs.Write.Sizes.{wanted_blocks-one}
use bit_computer.Fs.Write.Success.{blocks_of, fs_write-Wrote}
use Prim.Native.Nat.{min as least}

-- A read back of `length` bytes: the buffer holds them, and beyond them what stood there.
abbrev pub ReadsBack : {D : DiskApi} → State D → ℕ → Bytes → ℕ → Type 0
ReadsBack {D} s n bytes length =
    (buf : Bytes) (offset : ℕ)
    → (buf' : Bytes) × (fs_read s n buf length offset ≡ ok (pos 0, buf', s))
      × ((k : ℕ) → buf' k ≡ (if ltb k length then bytes k else buf k))

module _ {D : DiskApi} (s : State D) (n : ℕ) where
  -- For a size below 2^15, `fs_stat` answers the size of an inode in use and -1 for any other, and in both cases loses a
  -- block of memory; with less memory than a block it goes through a null pointer.
  fs_stat_lem :
      sizes D s.disk n < 2 ^ 15
      → fs_stat s n ≡ (
          if ltb s.heap block_size
          then fault null_pointer
          else ok (
            if valids D s.disk n == 0 then negsuc 0 else pos (sizes D s.disk n),
            record s { heap = s.heap - block_size },
          ))
  unfolding fs_stat malloc fs_find_inode_2
  fs_stat_lem small = ground (arith, to_int-small (sizes D s.disk n) small)

prefix_eq :
    (length k : ℕ) (f bytes buf : Bytes)
    → length ≤ block_size
    → (k < length → f k ≡ bytes k)
    → (if ltb k (least block_size length) then f k else buf k)
      ≡ (if ltb k length then bytes k else buf k)
prefix_eq length k f bytes buf h same = ground (arith, same)

-- `IsValid` is not about the heap.
pub with_heap-IsValid :
    {D : DiskApi} (s : State D) (bm : Bitmap) (heap : ℕ)
    → IsValid s bm
    → IsValid (record s { heap = heap }) bm
with_heap-IsValid s bm heap v = record {
  blocks = v.blocks;
  mounted = v.mounted;
  allocated = v.allocated;
}

module _ {D : DiskApi} (s s' : State D) (bm bm' : Bitmap) (n : ℕ) (hn : n < inode_count)
    (bytes : Bytes) (length : ℕ) (more : 0 < length) (fits : length ≤ block_size) where
  -- What has been written at the start of a file is read back, with memory for two blocks.
  fs_read-Wrote :
      (heap : ℕ)
      → 2 * block_size ≤ heap
      → Wrote s bm n bytes length 0 s' bm'
      → ReadsBack (record s' { heap = heap }) n bytes length
  fs_read-Wrote heap memory w buf offset =
      let written : sizes D s'.disk n ≡ length = w.size_after ∙ omega arith in
      let (buf', run, c) =
        fs_read-Copied (record s' { heap = heap }) bm' (with_heap-IsValid s' bm' heap w.consistent)
          n hn w.valid_after buf length offset more (omega arith) (omega arith) memory in
      (
        buf',
        run,
        λ k.
            c k
            ∙ prefix_eq length k (file_byte D s'.disk n) bytes buf fits
                (λ lo. ap (file_byte D s'.disk n) (omega arith) ∙ w.contents k lo),
      )

module _ {D : DiskApi} (s : State D) (bm : Bitmap) (v : IsValid s bm) (n : ℕ) (hn : n < inode_count)
    (used : valids D s.disk n ≢ 0) (one : blocks_of s bm v n hn used ≡ 1) (bytes : Bytes)
    (length : ℕ) (more : 0 < length) (fits : length ≤ block_size)
    (memory : 8 * block_size ≤ s.heap) where
  -- In a consistent file system, with memory for eight blocks, take a file in use that has one block,
  -- and from 1 to 512 bytes. `fs_write` of the bytes at the start returns 0, the file system stays
  -- consistent, the size is the number of bytes, and `fs_read` of as many bytes, with any offset and
  -- into any buffer, then returns 0, changes no state and delivers just these bytes.
  pub fs_read-fs_write :
      (s' : State D) × (bm' : Bitmap) × (fs_write s n bytes length 0 ≡ ok (pos 0, s'))
      × IsValid s' bm'
      × (sizes D s'.disk n ≡ length)
      × ReadsBack s' n bytes length
  fs_read-fs_write =
      let wanted = wanted_blocks-one length 0 (omega arith) (omega arith) (omega arith) in
      let (s', bm', run, w) =
        fs_write-Wrote s bm v n hn used bytes length 0 (omega arith) (omega arith) (omega arith)
          (omega arith) (omega arith) (omega arith) in
      (
        s',
        bm',
        run,
        w.consistent,
        w.size_after ∙ omega arith,
        fs_read-Wrote s s' bm bm' n hn bytes length more fits s'.heap (omega (arith, w.heap_after))
            w,
      )
