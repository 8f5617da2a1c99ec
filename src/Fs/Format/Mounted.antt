-- ===== src/Fs/Format/Mounted.antt =====
-- `fs_mount` after `fs_format`.
use bit_computer.Common.{
  arith, get_u32, get_u32_congr, inl, inr, le→leb, lt→ltb, ok, refl, set_u32, true, zeros, ℕ, ◌*◌,
  ◌+◌, ◌<◌, ◌↔◌, ◌∙◌, ◌≡◌, ◌≤◌,
}
use bit_computer.Fs.Bitmap.{fs_mount}
use bit_computer.Fs.Bitmap.Mount.{IsConsistent, fs_mount-IsValid, mounted_state}
use bit_computer.Fs.Disk.{DiskApi}
use bit_computer.Fs.Format.{format_blocks, format_super, fs_format}
use bit_computer.Fs.Format.Blank.{format_blocks-read, fs_read_block-write}
use bit_computer.Fs.Layout.{
  block_num, block_size, first_data_block, first_inode_block, inode_blocks, inode_count, set_super,
  super, valid,
}
use bit_computer.Fs.Layout.Fields.{valid_congr}
use bit_computer.Fs.State.{Bitmap, State, fs_read_block, malloc_ok}
use bit_computer.Fs.Valid.View.{IsValid, inode_index, pointers, valids}
use bit_computer.Fs.Write.{inode_block_num}

-- The disk that `fs_format` leaves.
abbrev pub formatted : (D : DiskApi) → D.Disk → D.Disk
formatted D d = format_blocks D inode_blocks first_inode_block (D.disk_write d 0 format_super)

super_blocks : get_u32 format_super 4 ≡ block_num
unfolding set_super get_u32 set_u32
super_blocks = refl

blank_valid : (j : ℕ) → valid zeros j ≡ 0
unfolding valid get_u32
blank_valid j = refl

module _ (D : DiskApi) (d : D.Disk) where
  pub formatted-super :
      (k : ℕ) → k < block_size → fs_read_block D (formatted D d) 0 k ≡ format_super k
  formatted-super k h =
      format_blocks-read D inode_blocks first_inode_block (D.disk_write d 0 format_super) 0 k
        (omega arith) (omega arith) h
      ∙ fs_read_block-write D d 0 format_super 0 k (omega arith) (omega arith) h

  formatted-inodes :
      (b k : ℕ)
      → first_inode_block ≤ b
      → b < first_data_block
      → k < block_size
      → fs_read_block D (formatted D d) b k ≡ 0
  formatted-inodes b k lo hi h =
      format_blocks-read D inode_blocks first_inode_block (D.disk_write d 0 format_super) b k
        (omega arith) (omega arith) h
      ∙ rw (le→leb first_inode_block b lo, lt→ltb b first_data_block hi) refl

  pub formatted-blocks : (super (fs_read_block D (formatted D d) 0)).blocks ≡ block_num
  unfolding super
  formatted-blocks =
      get_u32_congr _ format_super 4 (formatted-super 4 (omega arith))
        (formatted-super 5 (omega arith)) (formatted-super 6 (omega arith))
        (formatted-super 7 (omega arith))
      ∙ super_blocks

  formatted-valids : (n : ℕ) → n < inode_count → valids D (formatted D d) n ≡ 0
  formatted-valids n h =
      valid_congr _ zeros
        (λ k hk. formatted-inodes (inode_block_num n) k (omega arith) (omega arith) hk)
        (inode_index n) (omega arith)
      ∙ blank_valid (inode_index n)

  formatted-IsConsistent : IsConsistent (valids D (formatted D d)) (pointers D (formatted D d))
  formatted-IsConsistent = record {
    in_range = λ n k hn hk hv. absurd (hv (formatted-valids n hn));
    in_data = λ n k hn hk hv hp. absurd (hv (formatted-valids n hn));
    first = λ n hn hv. absurd (hv (formatted-valids n hn));
    closed = λ n k l hn hl hv. absurd (hv (formatted-valids n hn));
    distinct = λ n k m l hn hk hm hl hv. absurd (hv (formatted-valids n hn));
  }

module _ {D : DiskApi} where
  -- With memory for two blocks and the bitmap, formatting any disk and mounting it succeeds and gives
  -- a consistent file system in which no inode is in use and exactly the data blocks are free.
  pub fs_mount-fs_format :
      (s : State D)
      → 2 * block_size + block_num ≤ s.heap
      → (bm : Bitmap) × (fs_format s ≡ (true, record s { disk = formatted D s.disk }))
        × (fs_mount (record s { disk = formatted D s.disk })
            ≡ ok (true, mounted_state (record s { disk = formatted D s.disk }) bm))
        × IsValid (mounted_state (record s { disk = formatted D s.disk }) bm) bm
        × ((n : ℕ) → n < inode_count → valids D (formatted D s.disk) n ≡ 0)
        × ((c : ℕ) → (bm c ≡ true) ↔ ((first_data_block ≤ c) × (c < block_num)))
  unfolding fs_format
  fs_mount-fs_format s memory =
      let (bm, run, v, m) =
        fs_mount-IsValid (record s { disk = formatted D s.disk }) (formatted-IsConsistent D s.disk)
          (formatted-blocks D s.disk) memory in
      (
        bm,
        rw (malloc_ok block_size s.heap (omega arith), fs_format),
        run,
        v,
        formatted-valids D s.disk,
        λ c. (
          m.data_block c,
          λ (lo, hi). m.complete c lo hi (λ n k hn hk hv. absurd (
              hv (
                formatted-valids D s.disk n
                  (elim hn [ inl a ↦ a | inr (e, b) ↦ absurd (omega arith) ])))),
        ),
      )
