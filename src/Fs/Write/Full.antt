-- ===== src/Fs/Write/Full.antt =====
-- `fs_write` when the free blocks are not enough.
use bit_computer.Common.{
  Bytes, ap, arith, false, inl, inr, negsuc, ok, refl, some, suc, true, zero, ℕ, ◌*◌, ◌+◌, ◌-◌, ◌<◌,
  ◌^◌, ◌∙◌, ◌≡◌, ◌≢◌, ◌≤◌,
}
use bit_computer.Fs.Bitmap.Search.{NoneFree, count_free-taken, fs_find_empty_block-Answers, taken}
use bit_computer.Fs.Disk.{DiskApi}
use bit_computer.Fs.Layout.{block_num, block_size, inode_count, pointers_per_inode, set_direct}
use bit_computer.Fs.Read.{count_free}
use bit_computer.Fs.State.{Bitmap, State}
use bit_computer.Fs.Valid.View.{IsValid, inode_block, inode_index, pointers, valids}
use bit_computer.Fs.Write.{allocate, fs_write, fs_write_inode, total_allocations}
use bit_computer.Fs.Write.Allocate.{allocate-step}
use bit_computer.Fs.Write.Sizes.{total_allocations-grow, wanted_blocks}
use bit_computer.Fs.Write.Success.{
  blocks_of, blocks_of-pos, blocks_of_bounded, fs_write-starts, goes_on, has_blocks,
}

module _ (D : DiskApi) (d : D.Disk) (n : ℕ) (hn : n < inode_count) where
  abbrev j : ℕ
  j = inode_index n

  -- With fewer free blocks than rounds, the loop takes them all and then gives up.
  allocate-NoneFree :
      (r i available : ℕ) (b : Bytes) (s : State D) (bm : Bitmap)
      → s.meta_data.blocks ≡ block_num
      → s.free_blocks ≡ some bm
      → i + available + r ≤ pointers_per_inode
      → count_free block_num bm < r
      → (b' : Bytes) × (bm' : Bitmap) × (allocate r i available j b s
          ≡ ok (false, b', record s { free_blocks = some bm' }))
        × NoneFree bm' 0
        × ((c : ℕ) → bm' c ≡ true → bm c ≡ true)
  allocate-NoneFree zero i available b s bm blocks mounted fits few = absurd (omega arith)
  allocate-NoneFree (suc r) i available b s bm blocks mounted fits few =
      elim (fs_find_empty_block-Answers s bm mounted blocks) [
        | inl (e, found, low) ↦
            let (b', bm', run, full, only) =
              allocate-NoneFree r (i + 1) available (set_direct b j (i + available) e)
                (record s { free_blocks = some (taken e bm) }) (taken e bm) blocks refl
                (omega arith)
                (omega (arith, count_free-taken block_num e bm low.bounded low.free)) in
            (
              b',
              bm',
              allocate-step D d n hn r i available b s bm e mounted (omega arith) found low.bounded
                  ∙ run,
              full,
              λ c h. ground (arith, only c h),
            )
        | inr (none_found, full) ↦ (
          b,
          bm,
          unfold allocate in
              rw none_found (ap (λ f. ok (false, b, record s { free_blocks = f })) mounted),
          full,
          λ c h. h,
        )
      ]

module _ {D : DiskApi} (s : State D) (bm : Bitmap) (v : IsValid s bm) (n : ℕ) (hn : n < inode_count)
    (used : valids D s.disk n ≢ 0) (bytes : Bytes) (length offset : ℕ) (near : offset < block_size)
    (small : length < 2 ^ 16) (memory : (pointers_per_inode + 1) * block_size ≤ s.heap) where
  -- In a consistent file system, for a file in use, an offset in the first block, a length below 2^16 and memory for six
  -- blocks, if at most five blocks are wanted and the file's blocks and the free ones are fewer than that, `fs_write` returns
  -- -4 and leaves the disk as it was and the file system consistent, but no block is free in the bitmap any
  -- more: those that were are lost until the next mount.
  pub fs_write-full :
      wanted_blocks length offset ≤ pointers_per_inode
      → blocks_of s bm v n hn used + count_free block_num bm < wanted_blocks length offset
      → (s' : State D) × (bm' : Bitmap) × (fs_write s n bytes length offset ≡ ok (negsuc 3, s'))
        × (s'.disk ≡ s.disk)
        × NoneFree bm' 0
        × IsValid s' bm'
  fs_write-full enough few =
      let available = blocks_of s bm v n hn used in
      let at_most = blocks_of_bounded s bm v n hn used bytes length offset near small memory in
      let missing =
        total_allocations-grow length offset near small available (blocks_of-pos s bm v n hn used)
          at_most (omega arith) in
      let started : State D = record s { heap = s.heap - block_size } in
      let (b', bm', run, full, only) =
        allocate-NoneFree D s.disk n hn (total_allocations length offset available) 0 available
          (inode_block D s.disk n) started bm v.blocks v.mounted (omega (arith, missing, at_most))
          (omega (arith, missing)) in
      (
        record started { free_blocks = some bm' },
        bm',
        fs_write-starts s bm v n hn used bytes length offset near small memory
            ∙ unfold fs_write_inode in
              rw
                (
                  has_blocks s bm v n hn used bytes length offset near small memory,
                  goes_on s bm v n hn used bytes length offset near small memory enough,
                  run,
                )
                refl,
        refl,
        full,
        record {
          blocks = v.blocks;
          mounted = refl;
          allocated = record {
            low = λ c h. v.allocated.low c (only c h);
            in_range = v.allocated.in_range;
            used = λ m l hm hl hv.
                full (pointers D s.disk m l) (omega arith) (v.allocated.in_range m l hm hl hv);
            in_data = v.allocated.in_data;
            first = v.allocated.first;
            closed = v.allocated.closed;
            distinct = v.allocated.distinct;
          };
        },
      )
