-- ===== src/Fs/Bitmap/Marks.antt =====
-- The bitmap that `fs_get_blocks_bitmap` builds.
use bit_computer.Common.{
  ==_iff, Bool-cases, Returns, ap, arith, dec_lt, for_range, for_range_inv, inl, inr, lt→ltb, ok,
  refl, some, subst, sym, true, ℕ, ◌+◌, ◌-◌, ◌<◌, ◌==◌, ◌∙◌, ◌≡◌, ◌≢◌, ◌≤◌, ◌⊎◌,
}
use bit_computer.Fs.Bitmap.{
  fs_get_blocks_bitmap, initial_bitmap, mark_block, mark_inode, mark_pointer,
}
use bit_computer.Fs.Bitmap.Search.{taken}
use bit_computer.Fs.Disk.{DiskApi}
use bit_computer.Fs.Layout.{
  block_num, block_size, direct, first_data_block, first_inode_block, inode_blocks, inode_count,
  inodes_per_block, pointers_per_inode, valid,
}
use bit_computer.Fs.State.{Bitmap, State, clear_bit, fs_read_block, malloc_ok}
use bit_computer.Fs.Valid.View.{inode_at, pointers, pointers-inode_at, valids, valids-inode_at}

-- The pointers that have been gone through: all of the inodes below `x`, and those below `y` of inode `x`.
abbrev Done : ℕ → ℕ → ℕ → ℕ → Type 0
Done x y n k = (n < x) ⊎ ((n ≡ x) × (k < y))

-- The bitmap is true exactly at the data blocks that are not marked yet.
pub record IsMarked (v : ℕ → ℕ) (p : ℕ → ℕ → ℕ) (x y : ℕ) (bm : Bitmap) : Type 0 where
  pub data_block : (c : ℕ) → bm c ≡ true → (first_data_block ≤ c) × (c < block_num)
  pub unowned :
      (c : ℕ)
      → bm c ≡ true
      → (n k : ℕ) → Done x y n k
      → k < pointers_per_inode
      → v n ≢ 0
      → p n k ≢ c
  pub complete :
      (c : ℕ)
      → first_data_block ≤ c
      → c < block_num
      → ((n k : ℕ) → Done x y n k → k < pointers_per_inode → v n ≢ 0 → p n k ≢ c)
      → bm c ≡ true

module _ (v : ℕ → ℕ) (p : ℕ → ℕ → ℕ) where
  initial-IsMarked : IsMarked v p 0 0 initial_bitmap
  initial-IsMarked = record {
    data_block = λ c h. ground arith;
    unowned = λ c h n k d hk hv. absurd (omega arith);
    complete = λ c lo hi u. ground arith;
  }

  -- One pointer more.
  pointer-IsMarked :
      (x y : ℕ) (bm : Bitmap)
      → y < pointers_per_inode
      → v x ≢ 0
      → IsMarked v p x y bm
      → IsMarked v p x (y + 1) (taken (p x y) bm)
  pointer-IsMarked x y bm hy hv m = record {
    data_block = λ c h. ground (arith, m.data_block c);
    unowned = λ c h n k d hk hn. elim (dec_lt n x) [
      | yes lo ↦ m.unowned c (ground arith) n k (inl lo) hk hn
      | no here ↦ elim (dec_lt k y) [
        | yes lo ↦ m.unowned c (ground arith) n k (inr (omega arith, lo)) hk hn
        | no last ↦
            let e : n ≡ x = omega arith in let f : k ≡ y = omega arith in rw (e, f) (ground arith)
      ]
    ];
    complete = λ c lo hi u.
        let ne = u x y (inr (refl, omega arith)) hy hv in
        ground (
          arith,
          m.complete c lo hi (λ n k d hk hn.
              u n k (elim d [ inl a ↦ inl a | inr (e, b) ↦ inr (e, omega arith) ]) hk hn),
          ne,
        );
  }

  -- The end of an inode is the start of the next one.
  next-IsMarked :
      (x : ℕ) (bm : Bitmap) → IsMarked v p x pointers_per_inode bm → IsMarked v p (x + 1) 0 bm
  next-IsMarked x bm m = record {
    data_block = m.data_block;
    unowned = λ c h n k d hk hn.
        m.unowned c h n k (elim (dec_lt n x) [ yes lo ↦ inl lo | no here ↦ inr (omega arith, hk) ])
          hk hn;
    complete = λ c lo hi u. m.complete c lo hi (λ n k d hk hn. u n k (inl (omega arith)) hk hn);
  }

  -- An inode that is not in use marks nothing.
  skip-IsMarked : (x : ℕ) (bm : Bitmap) → v x ≡ 0 → IsMarked v p x 0 bm → IsMarked v p (x + 1) 0 bm
  skip-IsMarked x bm hv m = record {
    data_block = m.data_block;
    unowned = λ c h n k d hk hn. elim (dec_lt n x) [
      | yes lo ↦ m.unowned c h n k (inl lo) hk hn
      | no here ↦ let e : n ≡ x = omega arith in absurd (hn (ap v e ∙ hv))
    ];
    complete = λ c lo hi u. m.complete c lo hi (λ n k d hk hn. u n k (inl (omega arith)) hk hn);
  }

clear_bit_lem : (c : ℕ) (bm : Bitmap) → c < block_num → clear_bit c bm ≡ ok (taken c bm)
unfolding clear_bit
clear_bit_lem c bm h = rw (lt→ltb c block_num h)

-- The pointers of the inodes in use name blocks of the disk.
abbrev InRange : (ℕ → ℕ) → (ℕ → ℕ → ℕ) → Type 0
InRange v p = (n k : ℕ) → n < inode_count → k < pointers_per_inode → v n ≢ 0 → p n k < block_num

module _ (D : DiskApi) (d : D.Disk) (ranges : InRange (valids D d) (pointers D d)) where
  abbrev Marked : ℕ → ℕ → Bitmap → Type 0
  Marked x y bm = IsMarked (valids D d) (pointers D d) x y bm

  mark_inode-IsMarked :
      (i j : ℕ) (bm : Bitmap)
      → first_inode_block ≤ i
      → i < first_data_block
      → j < inodes_per_block
      → Marked (inode_at i j) 0 bm
      → Returns (mark_inode (fs_read_block D d i) j bm) (Marked (inode_at i j + 1) 0)
  unfolding mark_inode mark_pointer
  mark_inode-IsMarked i j bm lo hi hj m =
      let x = inode_at i j in
      let here = valids-inode_at i j lo hj D d in
      elim (Bool-cases (valid (fs_read_block D d i) j == 0)) [
        | inl unused ↦ (
          bm,
          rw unused,
          skip-IsMarked (valids D d) (pointers D d) x bm (here ∙ (==_iff _ 0).0 unused) m,
        )
        | inr used ↦
            let hv : valids D d x ≢ 0 = λ e. cc ((==_iff _ 0).1 (sym here ∙ e), used) in
            let (bm', run, m') =
              for_range_inv (λ k t. Marked x k t) (mark_pointer (fs_read_block D d i) j)
                pointers_per_inode 0 pointers_per_inode bm (omega arith)
                (λ k t a b q.
                  let same = pointers-inode_at i j lo hj D d k in
                  (
                    taken (pointers D d x k) t,
                    rw same (
                        clear_bit_lem (direct (fs_read_block D d i) j k) t
                          (subst (λ c. c < block_num) same (ranges x k (omega arith) b hv))),
                    pointer-IsMarked (valids D d) (pointers D d) x k t b hv q,
                  ))
                m in
            (bm', rw used run, next-IsMarked (valids D d) (pointers D d) x bm' m')
      ]

  mark_block-IsMarked :
      (i : ℕ) (bm : Bitmap)
      → first_inode_block ≤ i
      → i < first_data_block
      → Marked (inode_at i 0) 0 bm
      → Returns (mark_block D d i bm) (Marked (inode_at (i + 1) 0) 0)
  unfolding mark_block
  mark_block-IsMarked i bm lo hi m =
      let (bm', run, m') =
        for_range_inv (λ j t. Marked (inode_at i j) 0 t) (mark_inode (fs_read_block D d i))
          inodes_per_block 0 inodes_per_block bm (omega arith)
          (λ j t a b q.
            let (t', run, q') = mark_inode-IsMarked i j t lo hi b q in
            (t', run, subst (λ x. Marked x 0 t') (omega arith) q'))
          m in
      (bm', run, subst (λ x. Marked x 0 bm') (omega arith) m')

  mark_blocks-IsMarked :
      Returns
        (for_range inode_blocks first_inode_block (mark_block D d) initial_bitmap)
        (Marked inode_count 0)
  mark_blocks-IsMarked =
      for_range_inv (λ i t. Marked (inode_at i 0) 0 t) (mark_block D d) inode_blocks
        first_inode_block first_data_block initial_bitmap (omega arith)
        (λ i t a b q. mark_block-IsMarked i t a b q) (initial-IsMarked (valids D d) (pointers D d))

-- With memory for a block and the bitmap, `fs_get_blocks_bitmap` does not fault and leaves only the
-- bitmap allocated; a block is free in it exactly if it is a data block to which no inode in use points.
pub fs_get_blocks_bitmap-IsMarked :
    {D : DiskApi} (s : State D)
    → InRange (valids D s.disk) (pointers D s.disk)
    → block_size + block_num ≤ s.heap
    → (bm : Bitmap) × (fs_get_blocks_bitmap s
        ≡ ok (some bm, record s { heap = s.heap - block_num }))
      × IsMarked (valids D s.disk) (pointers D s.disk) inode_count 0 bm
unfolding fs_get_blocks_bitmap
fs_get_blocks_bitmap-IsMarked {D} s ranges memory =
    let (bm, run, m) = mark_blocks-IsMarked D s.disk ranges in
    (
      bm,
      rw (malloc_ok block_size s.heap (omega arith), fs_get_blocks_bitmap)
          (rw (malloc_ok block_num (s.heap - block_size) (omega arith))
            (rw run (ap (λ h. ok (some bm, record s { heap = h })) (omega arith)))),
      m,
    )
