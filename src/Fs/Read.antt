-- ===== src/Fs/Read.antt =====
-- shell_in_c/fs/src/common/fs.c: `fs_read`, `fs_stat`, `fs_info` and `fs_inodes_walk`.
pub mod Copy
pub mod Walk
pub mod Success
use bit_computer.Common.{
  Bytes, Option, Run, false, fault, if◌then◌else◌, leb, length, ltb, memcpy, negsuc, none,
  null_pointer, ok, out_of_bounds, out_of_fuel, pos, some, suc, to_int, true, zero, ℕ, ℤ, ◌%◌, ◌+◌,
  ◌-◌, ◌==◌, ◌>>=◌, ◌^◌, ◌||◌,
}
use bit_computer.Fs.Disk.{DiskApi}
use bit_computer.Fs.Layout.{
  block_size, direct, first_inode_block, inode_blocks, inodes_per_block, size, valid,
}
use bit_computer.Fs.State.{Bitmap, State, fs_read_block, malloc}
use bit_computer.Fs.Write.{direct_pointers_len, fs_find_inode_2, min_size, wrap}

-- `memcpy(data, data_block->data, count)`
unfoldable pub copy_block : Bytes → ℕ → Bytes → Run Bytes
copy_block block count buf =
    if leb count block_size then ok (memcpy buf 0 block count) else fault out_of_bounds

-- The inner loop: it copies from the start of the block to the start of the buffer until nothing is
-- left. Every round copies a byte at least, so as many rounds as bytes are enough. The result is the
-- buffer and what is left.
unfoldable pub copy_rounds : ℕ → Bytes → ℕ → Bytes → Run (Bytes × ℕ)
copy_rounds zero block remaining buf =
    if ltb 0 remaining then fault out_of_fuel else ok (buf, remaining)
copy_rounds (suc n) block remaining buf = elim (ltb 0 remaining) [
  | false ↦ ok (buf, remaining)
  | true ↦ do
    let count = min_size block_size remaining
    buf' ← copy_block block count buf
    copy_rounds n block (wrap (remaining + 2 ^ 16 - count)) buf'
]

-- The outer loop over the pointers, `n` rounds from pointer `i` on.
unfoldable pub read_blocks :
    (D : DiskApi) → ℕ → ℕ → D.Disk → Bytes → ℕ → ℕ → Bytes → Run (Bytes × ℕ)
read_blocks D zero i d b j remaining buf = ok (buf, remaining)
read_blocks D (suc n) i d b j remaining buf = elim (ltb 0 remaining) [
  | false ↦ ok (buf, remaining)
  | true ↦ do
    (buf', remaining') ←
        copy_rounds remaining (fs_read_block D d (wrap (direct b j i))) remaining buf
    read_blocks D n (i + 1) d b j remaining' buf'
]

module _ {D : DiskApi} where
  -- From the successful first `malloc` on, with `b` the block of the inode. `s` is the state before.
  unfoldable pub fs_read_inode : State D → ℕ → Bytes → ℕ → Bytes → ℕ → Run (ℤ × Bytes × State D)
  fs_read_inode s heap b j buf length =
      if (valid b j == 0) || (size b j == 0)
      then ok (pos 0, buf, record s { heap = heap })
      else if ltb (size b j) length
      then ok (negsuc 2, buf, record s { heap = heap })
      else elim (malloc block_size heap) [
        | none ↦ ok (negsuc 3, buf, record s { heap = heap })
        | some heap' ↦ do
          (buf', _) ← read_blocks D (direct_pointers_len b j) 0 s.disk b j length buf
          ok (pos 0, buf', record s { heap = heap' + block_size + block_size })
      ]

  -- `buf` is what stands at the caller's pointer before the call. The offset is not looked at.
  unfoldable pub fs_read : State D → ℕ → Bytes → ℕ → ℕ → Run (ℤ × Bytes × State D)
  fs_read s n buf length offset = elim (malloc block_size s.heap) [
    | none ↦ ok (negsuc 0, buf, s)
    | some heap ↦ fs_read_inode s heap (fs_find_inode_2 s n) (n % inodes_per_block) buf length
  ]

  -- The result of `malloc` is not tested, and the block is not freed.
  unfoldable pub fs_stat : State D → ℕ → Run (ℤ × State D)
  fs_stat s n = elim (malloc block_size s.heap) [
    | none ↦ fault null_pointer
    | some heap ↦
        let b = fs_find_inode_2 s n in
        let j = n % inodes_per_block in
        ok ((if valid b j == 0 then negsuc 0 else to_int (size b j)), record s { heap = heap })
  ]

-- The free blocks below `n`.
unfoldable pub count_free : ℕ → Bitmap → ℕ
count_free zero bm = 0
count_free (suc n) bm = (if bm n then 1 else 0) + count_free n bm

-- `fs_info_res`
pub record InfoResult : Type 0 where
  pub free_blocks : ℕ
  pub total_blocks : ℕ
  pub reserved_for_inodes : ℕ

-- The bound of the loop of `fs_info`.
abbrev info_blocks : ℕ
info_blocks = 42

unfoldable pub fs_info : {D : DiskApi} → State D → Run InfoResult
unfolding count_free
fs_info s = elim s.free_blocks [
  | none ↦ fault null_pointer
  | some bm ↦ ok (record {
    free_blocks = count_free info_blocks bm;
    total_blocks = s.meta_data.blocks;
    reserved_for_inodes = s.meta_data.inode_blocks;
  })
]

-- The loop over the inodes of a block. The visitor is given the block and the inode's index in it.
unfoldable pub walk_inodes {ℓ} : {S : Type ℓ} → (Bytes → ℕ → S → S) → ℕ → ℕ → Bytes → S → S
walk_inodes visitor zero j b acc = acc
walk_inodes visitor (suc n) j b acc =
    walk_inodes visitor n (j + 1) b (if valid b j == 0 then acc else visitor b j acc)

unfoldable pub walk_blocks {ℓ} :
    {S : Type ℓ} (D : DiskApi) → (Bytes → ℕ → S → S) → ℕ → ℕ → D.Disk → S → S
walk_blocks D visitor zero i d acc = acc
walk_blocks D visitor (suc n) i d acc =
    walk_blocks D visitor n (i + 1) d
      (walk_inodes visitor inodes_per_block 0 (fs_read_block D d i) acc)

-- `none` is the early return for a failed `malloc`.
unfoldable pub fs_inodes_walk {ℓ} :
    {D : DiskApi} {S : Type ℓ} → State D → (Bytes → ℕ → S → S) → S → Option S
fs_inodes_walk {D} s visitor acc = elim (malloc block_size s.heap) [
  | none ↦ none
  | some _ ↦ some (walk_blocks D visitor inode_blocks first_inode_block s.disk acc)
]
