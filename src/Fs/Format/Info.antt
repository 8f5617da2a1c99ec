-- ===== src/Fs/Format/Info.antt =====
-- What `fs_info` says of a disk that has just been formatted and mounted.
use bit_computer.Common.{
  Bool-cases, arith, dec_le, get_u32, get_u32_congr, inl, inr, ok, refl, set_u32, some, suc, true,
  zero, ℕ, ◌*◌, ◌+◌, ◌-◌, ◌<◌, ◌↔◌, ◌∙◌, ◌≡◌, ◌≤◌,
}
use bit_computer.Fs.Bitmap.{fs_mount}
use bit_computer.Fs.Bitmap.Mount.{mounted_state}
use bit_computer.Fs.Disk.{DiskApi}
use bit_computer.Fs.Format.{format_super, fs_format}
use bit_computer.Fs.Format.Mounted.{
  formatted, formatted-blocks, formatted-super, fs_mount-fs_format,
}
use bit_computer.Fs.Layout.{block_num, block_size, first_data_block, inode_blocks, set_super, super}
use bit_computer.Fs.Read.{count_free, fs_info}
use bit_computer.Fs.State.{Bitmap, State, fs_read_block}

count_free-data :
    (n : ℕ) (bm : Bitmap)
    → ((c : ℕ) → (bm c ≡ true) ↔ ((first_data_block ≤ c) × (c < block_num)))
    → n ≤ block_num
    → count_free n bm ≡ n - first_data_block
unfolding count_free
count_free-data zero bm free h = refl
count_free-data (suc n) bm free h =
    let rest = count_free-data n bm free (omega arith) in
    elim (dec_le first_data_block n) [
      | yes lo ↦ rw ((free n).1 (lo, omega arith), rest) (omega arith)
      | no few ↦ elim (Bool-cases (bm n)) [
        | inl marked ↦ absurd (few ((free n).0 marked).0)
        | inr used ↦ rw (used, rest) (omega arith)
      ]
    ]

super_inode_blocks : get_u32 format_super 8 ≡ inode_blocks
unfolding set_super get_u32 set_u32
super_inode_blocks = refl

formatted-inode_blocks :
    (D : DiskApi) (d : D.Disk)
    → (super (fs_read_block D (formatted D d) 0)).inode_blocks ≡ inode_blocks
unfolding super
formatted-inode_blocks D d =
    get_u32_congr _ format_super 8 (formatted-super D d 8 (omega arith))
      (formatted-super D d 9 (omega arith)) (formatted-super D d 10 (omega arith))
      (formatted-super D d 11 (omega arith))
    ∙ super_inode_blocks

-- With memory for two blocks and the bitmap, any disk that is formatted and mounted has 58 free blocks in its bitmap, but
-- `fs_info` reports 36 free ones, of 64 blocks and 5 reserved for inodes.
pub fs_info-formatted :
    {D : DiskApi} (s : State D)
    → 2 * block_size + block_num ≤ s.heap
    → (s₁ : State D) × (s₂ : State D) × (bm : Bitmap) × (fs_format s ≡ (true, s₁))
      × (fs_mount s₁ ≡ ok (true, s₂))
      × (s₂.free_blocks ≡ some bm)
      × (count_free 64 bm ≡ 58)
      × (fs_info s₂ ≡ ok (record { free_blocks = 36; total_blocks = 64; reserved_for_inodes = 5 }))
unfolding fs_info
fs_info-formatted {D} s memory =
    let (bm, formats, mounts, _, _, free) = fs_mount-fs_format s memory in
    let on_disk = record s { disk = formatted D s.disk } in
    (
      on_disk,
      mounted_state on_disk bm,
      bm,
      formats,
      mounts,
      refl,
      count_free-data 64 bm free (omega arith),
      rw
          (
            count_free-data 42 bm free (omega arith),
            formatted-blocks D s.disk,
            formatted-inode_blocks D s.disk,
          )
          refl,
    )
