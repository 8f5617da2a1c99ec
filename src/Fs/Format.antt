-- ===== src/Fs/Format.antt =====
-- shell_in_c/fs/src/common/fs.c, `fs_format`.
pub mod Blank
pub mod Mounted
pub mod Info
use bit_computer.Common.{
  Bool, Bytes, false, if◌then◌else◌, none, some, suc, true, zero, zeros, ℕ, ◌&&◌, ◌+◌, ◌==◌,
}
use bit_computer.Fs.Disk.{DiskApi}
use bit_computer.Fs.Layout.{
  block_num, block_size, first_inode_block, inode_blocks, inodes_per_block, magic_number,
  pointers_per_inode, set_direct, set_name, set_size, set_super, set_valid,
}
use bit_computer.Fs.State.{State, malloc}

-- `for (k = i; k < i + n; k++) inode_ptr->direct[k] = 0`
unfoldable pub zero_pointers : ℕ → ℕ → ℕ → Bytes → Bytes
unfolding set_direct
zero_pointers zero k j b = b
zero_pointers (suc n) k j b = zero_pointers n (k + 1) j (set_direct b j k 0)

-- The very first inode keeps what `memset` left.
unfoldable pub format_inode : ℕ → ℕ → Bytes → Bytes
unfolding zero_pointers set_valid set_size set_name
format_inode i j b = zero_pointers pointers_per_inode 0 j (
    if (i == first_inode_block) && (j == 0)
    then b
    else set_name (set_size (set_valid b j 0) j 0) j 0 0)

unfoldable pub format_inodes : ℕ → ℕ → ℕ → Bytes → Bytes
unfolding format_inode
format_inodes zero j i b = b
format_inodes (suc n) j i b = format_inodes n (j + 1) i (format_inode i j b)

abbrev pub format_super : Bytes
format_super =
    set_super zeros
      (record { magic = magic_number; blocks = block_num; inode_blocks = inode_blocks; inodes = 0 })

unfoldable pub format_blocks : (D : DiskApi) → ℕ → ℕ → D.Disk → D.Disk
format_blocks D zero i d = d
format_blocks D (suc n) i d =
    format_blocks D n (i + 1) (D.disk_write d i (format_inodes inodes_per_block 0 i zeros))

module _ {D : DiskApi} where
  -- The block is freed at the end, so the heap is as before.
  unfoldable pub fs_format : State D → Bool × State D
  unfolding malloc
  fs_format s = elim (malloc block_size s.heap) [
    | none ↦ (false, s)
    | some heap ↦
        let labelled = D.disk_write s.disk 0 format_super in
        (true, record s { disk = format_blocks D inode_blocks first_inode_block labelled })
  ]
