-- ===== src/Fs/Create/Scan.antt =====
-- The search of `fs_create` for an inode, and what the whole function does.
use bit_computer.Common.{
  Bool-cases, Run, ap, arith, false, inl, inr, negsuc, ok, pos, refl, suc, zero, ℕ, ℤ, ◌+◌, ◌-◌,
  ◌<◌, ◌==◌, ◌∙◌, ◌≡◌, ◌≢◌, ◌≤◌, ◌⊎◌,
}
use bit_computer.Fs.Bitmap.Search.{NoneFree}
use bit_computer.Fs.Create.{create_at, create_blocks, create_inodes, fs_create}
use bit_computer.Fs.Create.Success.{Created, create_at-Created, create_at_full}
use bit_computer.Fs.Disk.{DiskApi}
use bit_computer.Fs.Layout.{
  block_num, block_size, first_data_block, first_inode_block, inode_blocks, inode_count,
  inodes_per_block, valid,
}
use bit_computer.Fs.Read.{count_free}
use bit_computer.Fs.State.{Bitmap, State, fs_read_block, malloc}
use bit_computer.Fs.Valid.View.{
  IsValid, inode_at, inode_block, inode_index, place_index, place_num, valids, valids-inode_at,
}
use bit_computer.Fs.Write.{inode_block_num}

module _ {D : DiskApi} (s : State D) where
  -- What the search from inode `lo` on comes to: `create_at` at the first inode that is not valid, or
  -- -1 with the block freed if there is none.
  abbrev Scans : ℕ → Run (ℤ × State D) → Type 0
  Scans lo r =
      ((x : ℕ) × (lo ≤ x)
        × (x < inode_count)
        × (valids D s.disk x ≡ 0)
        × ((y : ℕ) → lo ≤ y → y < x → valids D s.disk y ≢ 0)
        × (r ≡ create_at s (inode_block_num x) (inode_index x) (inode_block D s.disk x)))
      ⊎ (((y : ℕ) → lo ≤ y → y < inode_count → valids D s.disk y ≢ 0)
          × (r ≡ ok (negsuc 0, record s { heap = s.heap + block_size })))

  module _ (i j : ℕ) (hi : first_inode_block ≤ i) (hj : j < inodes_per_block) where
    create_at-inode_at :
        create_at s
          (inode_block_num (inode_at i j))
          (inode_index (inode_at i j))
          (inode_block D s.disk (inode_at i j))
        ≡ create_at s i j (fs_read_block D s.disk i)
    create_at-inode_at = λ t.
        create_at s (place_num i j hi hj t) (place_index i j hi hj t)
          (fs_read_block D s.disk (place_num i j hi hj t))

    used_place :
        (y : ℕ)
        → y ≡ inode_at i j
        → (valid (fs_read_block D s.disk i) j == 0) ≡ false
        → valids D s.disk y ≢ 0
    used_place y e used = rw (e, valids-inode_at i j hi hj D s.disk) (ground arith)

  -- The inodes of a block that has no free one.
  block_used :
      (i : ℕ)
      → first_inode_block ≤ i
      → (valid (fs_read_block D s.disk i) 0 == 0) ≡ false
      → (valid (fs_read_block D s.disk i) 1 == 0) ≡ false
      → (hi lo : ℕ) → lo ≡ inode_at i 0
      → ((y : ℕ) → inode_at (i + 1) 0 ≤ y → y < hi → valids D s.disk y ≢ 0)
      → (y : ℕ) → lo ≤ y
      → y < hi
      → valids D s.disk y ≢ 0
  block_used i hi used used' top lo e above y a b = elim (Bool-cases (y == inode_at i 0)) [
    | inl here ↦ used_place i 0 hi (omega arith) y (ground arith) used
    | inr other ↦ elim (Bool-cases (y == inode_at i 1)) [
      | inl here ↦ used_place i 1 hi (omega arith) y (ground arith) used'
      | inr other' ↦ above y (ground arith) b
    ]
  ]

  create_blocks-skip :
      (n i : ℕ)
      → (valid (fs_read_block D s.disk i) 0 == 0) ≡ false
      → (valid (fs_read_block D s.disk i) 1 == 0) ≡ false
      → create_blocks (suc n) i s ≡ create_blocks n (i + 1) s
  unfolding create_blocks create_inodes
  create_blocks-skip n i used used' = ground arith

  create_blocks-Scans :
      (n i : ℕ)
      → first_inode_block ≤ i
      → i + n ≡ first_data_block
      → Scans (inode_at i 0) (create_blocks n i s)
  unfolding create_blocks create_inodes
  create_blocks-Scans zero i hi e = inr (λ y a b. absurd (omega arith), refl)
  create_blocks-Scans (suc n) i hi e =
      let b = fs_read_block D s.disk i in
      elim (Bool-cases (valid b 0 == 0)) [
        | inl free ↦ inl (
          inode_at i 0,
          omega arith,
          omega arith,
          ground (arith, valids-inode_at i 0 hi (omega arith) D s.disk),
          λ y p q. absurd (omega arith),
          ground (arith, create_at-inode_at i 0),
        )
        | inr used ↦ elim (Bool-cases (valid b 1 == 0)) [
          | inl free ↦ inl (
            inode_at i 1,
            omega arith,
            omega arith,
            ground (arith, valids-inode_at i 1 hi (omega arith) D s.disk),
            λ y p q. used_place i 0 hi (omega arith) y (omega arith) used,
            ground (arith, create_at-inode_at i 1),
          )
          | inr used' ↦
              rw (create_blocks-skip n i used used')
                (elim (create_blocks-Scans n (i + 1) (omega arith) (omega arith)) [
                  | inl (x, above, below, free, before, run) ↦ inl (
                    x,
                    omega arith,
                    below,
                    free,
                    block_used i hi used used' x (inode_at i 0) refl before,
                    run,
                  )
                  | inr (before, run) ↦
                      inr (block_used i hi used used' inode_count (inode_at i 0) refl before, run)
                ])
        ]
      ]

-- `fs_create` on a consistent file system with memory for a block.
module _ {D : DiskApi} (s : State D) (bm : Bitmap) (v : IsValid s bm)
    (memory : block_size ≤ s.heap) where
  abbrev started : State D
  started = record s { heap = s.heap - block_size }

  fs_create-starts : fs_create s ≡ create_blocks inode_blocks first_inode_block started
  unfolding fs_create malloc
  fs_create-starts = ground arith

  fs_create-Scans : Scans started 0 (fs_create s)
  fs_create-Scans =
      rw fs_create-starts (create_blocks-Scans started 5 1 (omega arith) (omega arith))

  pub fs_create-Created :
      (z : ℕ)
      → z < inode_count
      → valids D s.disk z ≡ 0
      → 0 < count_free block_num bm
      → (x : ℕ) × (e : ℕ) × (s' : State D) × (fs_create s ≡ ok (pos x, s'))
        × (x < inode_count)
        × (valids D s.disk x ≡ 0)
        × ((y : ℕ) → y < x → valids D s.disk y ≢ 0)
        × Created started bm x e s'
  fs_create-Created z hz unused enough = elim fs_create-Scans [
    | inl (x, _, below, free, before, run) ↦
        let (e, s', run', c) =
          create_at-Created started bm
            (record { blocks = v.blocks; mounted = v.mounted; allocated = v.allocated }) x below
            free enough in
        (x, e, s', run ∙ run', below, free, λ y h. before y (omega arith) h, c)
    | inr (all, _) ↦ absurd (all z (omega arith) hz unused)
  ]

  -- In a consistent file system with memory for a block and every inode in use, `fs_create` answers -1
  -- and nothing has changed.
  pub fs_create-no_inode :
      ((y : ℕ) → y < inode_count → valids D s.disk y ≢ 0) → fs_create s ≡ ok (negsuc 0, s)
  fs_create-no_inode all = elim fs_create-Scans [
    | inl (x, _, below, free, _, _) ↦ absurd (all x below free)
    | inr (_, run) ↦ run ∙ ap (λ h. ok (negsuc 0, record s { heap = h })) (omega arith)
  ]

  -- In a consistent file system with memory for a block, an inode free but no block, `fs_create`
  -- answers -1 and leaves the disk and the bitmap as they are, but the block of memory that it had
  -- allocated is lost.
  pub fs_create-no_block :
      (z : ℕ)
      → z < inode_count
      → valids D s.disk z ≡ 0
      → NoneFree bm 0
      → fs_create s ≡ ok (negsuc 0, started)
  fs_create-no_block z hz unused full = elim fs_create-Scans [
    | inl (x, _, below, free, _, run) ↦
        run
        ∙ create_at_full started bm
            (record { blocks = v.blocks; mounted = v.mounted; allocated = v.allocated }) x below
            free full
    | inr (all, _) ↦ absurd (all z (omega arith) hz unused)
  ]
