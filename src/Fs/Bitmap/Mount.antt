-- ===== src/Fs/Bitmap/Mount.antt =====
-- `fs_mount` on a disk whose inodes are consistent.
use bit_computer.Common.{
  Bool-cases, arith, dec_lt, false, if◌then◌else◌, inl, inr, le→ltb, ltb, lt→ltb, none, ok, refl,
  some, true, ℕ, ◌*◌, ◌+◌, ◌-◌, ◌<◌, ◌≡◌, ◌≢◌, ◌≤◌,
}
use bit_computer.Fs.Bitmap.{fs_get_blocks_bitmap, fs_mount}
use bit_computer.Fs.Bitmap.Marks.{IsMarked, fs_get_blocks_bitmap-IsMarked}
use bit_computer.Fs.Disk.{DiskApi}
use bit_computer.Fs.Layout.{
  block_num, block_size, first_data_block, inode_count, pointers_per_inode, super,
}
use bit_computer.Fs.State.{Bitmap, State, fs_read_block, malloc_null, malloc_ok}
use bit_computer.Fs.Valid.Table.{Allocated}
use bit_computer.Fs.Valid.View.{IsValid, pointers, valids}

-- The inodes of a disk, with no bitmap: what `Allocated` asks of the pointers alone.
pub record IsConsistent (v : ℕ → ℕ) (d : ℕ → ℕ → ℕ) : Type 0 where
  pub in_range : (n k : ℕ) → n < inode_count → k < pointers_per_inode → v n ≢ 0 → d n k < block_num
  pub in_data :
      (n k : ℕ)
      → n < inode_count
      → k < pointers_per_inode
      → v n ≢ 0
      → d n k ≢ 0
      → first_data_block ≤ d n k
  pub first : (n : ℕ) → n < inode_count → v n ≢ 0 → d n 0 ≢ 0
  pub closed :
      (n k l : ℕ)
      → n < inode_count
      → l < pointers_per_inode
      → v n ≢ 0
      → d n k ≡ 0
      → k < l
      → d n l ≡ 0
  pub distinct :
      (n k m l : ℕ)
      → n < inode_count
      → k < pointers_per_inode
      → m < inode_count
      → l < pointers_per_inode
      → v n ≢ 0
      → v m ≢ 0
      → d n k ≢ 0
      → d n k ≡ d m l
      → (n ≡ m) × (k ≡ l)

-- Consistent inodes and a bitmap that leaves their blocks alone.
pub consistent-Allocated :
    (v : ℕ → ℕ) (d : ℕ → ℕ → ℕ) (bm : Bitmap)
    → IsConsistent v d
    → ((b : ℕ) → bm b ≡ true → first_data_block ≤ b)
    → ((n k : ℕ) → n < inode_count → k < pointers_per_inode → v n ≢ 0 → bm (d n k) ≡ false)
    → Allocated v d bm
consistent-Allocated v d bm c low used = record {
  low = low;
  in_range = c.in_range;
  used = used;
  in_data = c.in_data;
  first = c.first;
  closed = c.closed;
  distinct = c.distinct;
}

-- The bitmap that the disk determines makes the ownership complete.
marked-Allocated :
    (v : ℕ → ℕ) (d : ℕ → ℕ → ℕ) (bm : Bitmap)
    → IsConsistent v d
    → IsMarked v d inode_count 0 bm
    → Allocated v d bm
marked-Allocated v d bm c m =
    consistent-Allocated v d bm c (λ b h. (m.data_block b h).0)
      (λ n k hn hk hv. elim (Bool-cases (bm (d n k))) [
        | inl free ↦ absurd (m.unowned (d n k) free n k (inl hn) hk hv refl)
        | inr owned ↦ owned
      ])

module _ {D : DiskApi} (s : State D) where
  -- The state that a successful mount leaves: the block for the superblock and the bitmap stay
  -- allocated.
  abbrev pub mounted_state : Bitmap → State D
  mounted_state bm = record {
    heap = s.heap - block_size - block_num;
    disk = s.disk;
    free_blocks = some bm;
    meta_data = super (fs_read_block D s.disk 0);
  }

  -- With memory for two blocks and the bitmap, mounting a disk of 64 blocks with consistent inodes
  -- succeeds and makes the file system consistent, the free blocks being the data blocks that no inode in
  -- use points to.
  pub fs_mount-IsValid :
      IsConsistent (valids D s.disk) (pointers D s.disk)
      → (super (fs_read_block D s.disk 0)).blocks ≡ block_num
      → 2 * block_size + block_num ≤ s.heap
      → (bm : Bitmap) × (fs_mount s ≡ ok (true, mounted_state bm))
        × IsValid (mounted_state bm) bm
        × IsMarked (valids D s.disk) (pointers D s.disk) inode_count 0 bm
  unfolding fs_mount
  fs_mount-IsValid c blocks memory =
      let labelled : State D = record s {
        heap = s.heap - block_size;
        meta_data = super (fs_read_block D s.disk 0);
      } in
      let (bm, run, m) = fs_get_blocks_bitmap-IsMarked labelled c.in_range (omega arith) in
      (
        bm,
        rw (malloc_ok block_size s.heap (omega arith), fs_mount) (rw run),
        record { blocks = blocks; mounted = refl; allocated = marked-Allocated _ _ bm c m },
        m,
      )

  -- With less memory than two blocks mounting answers false. Without memory for the first block nothing
  -- changes; otherwise the pointer to the bitmap is null and what was allocated is lost.
  fs_mount-fails :
      s.heap < 2 * block_size
      → fs_mount s ≡ (
          if ltb s.heap block_size
          then ok (false, s)
          else ok (
            false,
            record {
              heap = s.heap - block_size;
              disk = s.disk;
              free_blocks = none;
              meta_data = super (fs_read_block D s.disk 0);
            },
          ))
  unfolding fs_mount fs_get_blocks_bitmap
  fs_mount-fails h' = elim (dec_lt s.heap block_size) [
    | yes h ↦ rw (lt→ltb _ _ h, malloc_null block_size s.heap h, fs_mount)
    | no h ↦
        rw
          (
            le→ltb s.heap block_size (omega arith),
            malloc_ok block_size s.heap (omega arith),
            fs_mount,
          )
          (rw (malloc_null block_size (s.heap - block_size) (omega arith), fs_get_blocks_bitmap))
  ]
