-- ===== src/Fs/Bitmap.antt =====
-- shell_in_c/fs/src/common/fs.c: the bitmap of free blocks, and `fs_mount` that builds it.
pub mod Search
pub mod Marks
pub mod Mount
use bit_computer.Common.{
  Bool, Bytes, Option, Run, false, fault, for_range, if◌then◌else◌, leb, ltb, negsuc, none,
  null_pointer, ok, out_of_bounds, pos, some, suc, to_int, true, zero, ℕ, ℤ, ◌&&◌, ◌+◌, ◌==◌, ◌>>=◌,
}
use bit_computer.Fs.Disk.{DiskApi}
use bit_computer.Fs.Layout.{
  block_num, block_size, direct, first_data_block, first_inode_block, inode_blocks,
  inodes_per_block, pointers_per_inode, super, valid,
}
use bit_computer.Fs.State.{Bitmap, State, clear_bit, fs_read_block, malloc}

-- The blocks before the data blocks are taken, the data blocks free.
abbrev pub initial_bitmap : Bitmap
initial_bitmap i = leb first_data_block i && ltb i block_num

unfoldable pub mark_pointer : Bytes → ℕ → ℕ → Bitmap → Run Bitmap
mark_pointer blk j k bm = clear_bit (direct blk j k) bm

unfoldable pub mark_inode : Bytes → ℕ → Bitmap → Run Bitmap
mark_inode blk j bm =
    if valid blk j == 0 then ok bm else for_range pointers_per_inode 0 (mark_pointer blk j) bm

-- The loop of `fs_find_empty_block` from block `i`, with `n` rounds left.
unfoldable pub first_free : Bitmap → ℕ → ℕ → Run ℤ
first_free bm zero i = ok (negsuc 0)
first_free bm (suc n) i =
    let rest = first_free bm n (i + 1) in
    if ltb i block_num then (if bm i then ok (pos i) else rest) else fault out_of_bounds

-- How often `for (i = 0; i < n; i++)` runs with a signed `n`.
abbrev pub rounds : ℤ → ℕ
rounds (pos n) = n
rounds (negsuc n) = 0

unfoldable pub mark_block : (D : DiskApi) → D.Disk → ℕ → Bitmap → Run Bitmap
mark_block D d i bm = for_range inodes_per_block 0 (mark_inode (fs_read_block D d i)) bm

module _ {D : DiskApi} where
  -- A null result (`none`) is a failed `malloc`; the first block then stays allocated.
  unfoldable pub fs_get_blocks_bitmap : State D → Run (Option Bitmap × State D)
  fs_get_blocks_bitmap s = elim (malloc block_size s.heap) [
    | none ↦ ok (none, s)
    | some heap ↦ elim (malloc block_num heap) [
      | none ↦ ok (none, record s { heap = heap })
      | some heap' ↦ do
        bm ← for_range inode_blocks first_inode_block (mark_block D s.disk) initial_bitmap
        ok (some bm, record s { heap = heap' + block_size })
    ]
  ]

  -- The block that the superblock is read into is not freed.
  unfoldable pub fs_mount : State D → Run (Bool × State D)
  fs_mount s = elim (malloc block_size s.heap) [
    | none ↦ ok (false, s)
    | some heap ↦ do
      (bitmap, s') ←
          fs_get_blocks_bitmap
            (record s { heap = heap; meta_data = super (fs_read_block D s.disk 0) })
      let mounted = record s' { free_blocks = bitmap }
      ok (elim bitmap [ none ↦ false | some _ ↦ true ], mounted)
  ]

  -- `int blocks = fs->meta_data.blocks` cuts the count to 16 bits.
  unfoldable pub fs_find_empty_block : State D → Run ℤ
  unfolding first_free to_int
  fs_find_empty_block s =
      let n = rounds (to_int s.meta_data.blocks) in
      elim s.free_blocks [
        | some bm ↦ first_free bm n 0
        | none ↦ if n == 0 then ok (negsuc 0) else fault null_pointer
      ]
