-- ===== src/Fs/Create.antt =====
-- shell_in_c/fs/src/common/fs.c, `fs_create`.
pub mod Inode
pub mod Success
pub mod Scan
use bit_computer.Common.{
  ℕ, zero, suc, ◌+◌, ◌*◌, ◌-◌, Option, none, some, Bytes, Run, ok, ℤ, pos, negsuc, ◌==◌,
  if◌then◌else◌, ◌>>=◌,
}
use bit_computer.Fs.Disk.{DiskApi}
use bit_computer.Fs.Layout.{
  valid, set_valid, set_size, set_name, set_direct, block_size, inode_blocks, first_inode_block,
  inodes_per_block,
}
use bit_computer.Fs.State.{State, malloc, mark_used, fs_read_block}
use bit_computer.Fs.Bitmap.{fs_find_empty_block}
use bit_computer.Fs.Format.{zero_pointers}

-- The inode as it is set before a block is looked for: valid, empty, its name beginning with "root".
unfoldable pub claim_inode : ℕ → Bytes → Bytes
unfolding set_valid set_size set_name
claim_inode j b =
    set_name
      (set_name (set_name (set_name (set_size (set_valid b j 1) j 0) j 0 b'r') j 1 b'o') j 2 b'o') j
      3 b't'

-- The block as it is written: `direct[0]` set, the other pointers 0.
unfoldable pub new_inode : ℕ → ℕ → Bytes → Bytes
unfolding claim_inode zero_pointers set_direct
new_inode j e b = zero_pointers 4 1 j (set_direct (claim_inode j b) j 0 e)

module _ {D : DiskApi} where
  -- The body of the loop at a free inode: inode `j` of block `i`, which was read as `b`.
  -- `s` is the state after `malloc`.
  unfoldable pub create_at : State D → ℕ → ℕ → Bytes → Run (ℤ × State D)
  unfolding fs_find_empty_block new_inode mark_used
  create_at s i j b = do
    found ← fs_find_empty_block s
    elim found [
      | negsuc _ ↦ ok (negsuc 0, s)
      | pos e ↦ if e == 0 then ok (negsuc 0, s) else do
        s' ← mark_used (record s { disk = D.disk_write s.disk i (new_inode j e b) }) e
        ok (
          pos (inodes_per_block * (i - first_inode_block) + j),
          record s' { heap = s'.heap + block_size },
        )
    ]

  -- The loop over the inodes of a block; `none` if it ends with no return.
  unfoldable pub create_inodes : ℕ → ℕ → State D → ℕ → Bytes → Option (Run (ℤ × State D))
  unfolding create_at valid
  create_inodes zero j s i b = none
  create_inodes (suc n) j s i b =
      let rest = create_inodes n (j + 1) s i b in
      if valid b j == 0 then some (create_at s i j b) else rest

  unfoldable pub create_blocks : ℕ → ℕ → State D → Run (ℤ × State D)
  unfolding create_inodes fs_read_block
  create_blocks zero i s = ok (negsuc 0, record s { heap = s.heap + block_size })
  create_blocks (suc n) i s =
      elim (create_inodes inodes_per_block 0 s i (fs_read_block D s.disk i)) [
        | some r ↦ r
        | none ↦ create_blocks n (i + 1) s
      ]

  unfoldable pub fs_create : State D → Run (ℤ × State D)
  unfolding malloc create_blocks
  fs_create s = elim (malloc block_size s.heap) [
    | none ↦ ok (negsuc 0, s)
    | some heap ↦ create_blocks inode_blocks first_inode_block (record s { heap = heap })
  ]
