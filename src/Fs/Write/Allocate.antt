-- ===== src/Fs/Write/Allocate.antt =====
-- The allocation loop of `fs_write`.
use bit_computer.Common.{
  Bool-cases, Bytes, ap, arith, dec_lt, fault, if◌then◌else◌, inl, inr, le→ltb, lt→ltb, ok,
  out_of_bounds, pos, refl, some, suc, sym, true, zero, ℕ, ◌+◌, ◌<◌, ◌==◌, ◌∙◌, ◌≡◌, ◌≢◌, ◌≤◌,
}
use bit_computer.Fs.Bitmap.{fs_find_empty_block}
use bit_computer.Fs.Bitmap.Search.{count_free-taken, find-free, mark_used_lem, taken}
use bit_computer.Fs.Disk.{DiskApi}
use bit_computer.Fs.Layout.{
  block_num, direct, inode_count, pointers_per_inode, set_direct, size, valid,
}
use bit_computer.Fs.Layout.Fields.{direct-set_direct, size-set_direct, valid-set_direct}
use bit_computer.Fs.Read.{count_free}
use bit_computer.Fs.State.{Bitmap, State}
use bit_computer.Fs.Valid.Table.{Allocated, Allocated-congr, extend-Allocated}
use bit_computer.Fs.Valid.View.{inode_index, pointers, valids}
use bit_computer.Fs.Write.{allocate, inode_block_num, set_pointer, wrap}

-- The tables of the disk with the block of inode `n` replaced by `b`, as it stands in memory.
abbrev pub valids_with : (D : DiskApi) → D.Disk → ℕ → Bytes → ℕ → ℕ
valids_with D d n b m =
    if inode_block_num n == inode_block_num m then valid b (inode_index m) else valids D d m

abbrev pub pointers_with : (D : DiskApi) → D.Disk → ℕ → Bytes → ℕ → ℕ → ℕ
pointers_with D d n b m l =
    if inode_block_num n == inode_block_num m then direct b (inode_index m) l else pointers D d m l

abbrev pub Owned : (D : DiskApi) → D.Disk → ℕ → Bytes → Bitmap → Type 0
Owned D d n b bm = Allocated (valids_with D d n b) (pointers_with D d n b) bm

-- The pointers before `k` are set, those from `k` on are null.
pub record IsZeroFrom (b : Bytes) (j k : ℕ) : Type 0 where
  pub before : (l : ℕ) → l < k → direct b j l ≢ 0
  pub after : (l : ℕ) → k ≤ l → l < pointers_per_inode → direct b j l ≡ 0

-- What `r` rounds do to the block `b` in memory and to the bitmap, where the inode `j` of the block has
-- `from` pointers before.
pub record Grown (b : Bytes) (bm : Bitmap) (j from r : ℕ) (b' : Bytes) (bm' : Bitmap) : Type 0 where
  pub shape : IsZeroFrom b' j (from + r)
  pub kept : (l : ℕ) → l < from → direct b' j l ≡ direct b j l
  pub others : (m l : ℕ) → l < pointers_per_inode → j ≢ m → direct b' m l ≡ direct b m l
  pub valids_kept : (m : ℕ) → valid b' m ≡ valid b m
  pub sizes_kept : (m : ℕ) → size b' m ≡ size b m
  pub were_free : (l : ℕ) → from ≤ l → l < from + r → bm (direct b' j l) ≡ true
  pub counted : count_free block_num bm' + r ≡ count_free block_num bm
  pub only_taken : (c : ℕ) → bm' c ≡ true → bm c ≡ true

module _ (D : DiskApi) (d : D.Disk) (n : ℕ) (hn : n < inode_count) where
  abbrev j : ℕ
  j = inode_index n

  -- Setting the next pointer of the inode to a free block keeps the ownership.
  Owned-set_direct :
      (b : Bytes) (bm : Bitmap) (k e : ℕ)
      → Owned D d n b bm
      → valid b j ≢ 0
      → bm e ≡ true
      → e < block_num
      → k < pointers_per_inode
      → ((l : ℕ) → l < k → direct b j l ≢ 0)
      → ((l : ℕ) → k ≤ l → l < pointers_per_inode → direct b j l ≡ 0)
      → Owned D d n (set_direct b j k e) (taken e bm)
  Owned-set_direct b bm k e o hv free he hk before after =
      Allocated-congr _ _ _ _ _
        (extend-Allocated _ _ _ o e free he n k hn hk (ground arith)
          (λ l h. ground (arith, before l h)) (λ l h h'. ground (arith, after l h h')))
        (λ m hm. ground (arith, valid-set_direct b j (inode_index m) k e hk))
        (λ m l hm hl. ground (arith, direct-set_direct b j (inode_index m) k e l hk hl))

  -- The block after one more pointer has been set.
  IsZeroFrom-set_direct :
      (b : Bytes) (k e : ℕ)
      → IsZeroFrom b j k
      → k < pointers_per_inode
      → e ≢ 0
      → e < block_num
      → IsZeroFrom (set_direct b j k e) j (k + 1)
  IsZeroFrom-set_direct b k e z hk ne he = record {
    before = λ l h. ground (arith, direct-set_direct b j j k e l hk, z.before l);
    after = λ l h hl. ground (arith, direct-set_direct b j j k e l hk hl, z.after l);
  }

  set_pointer_lem :
      (s : State D) (b : Bytes) (bm : Bitmap) (k k' e : ℕ)
      → s.free_blocks ≡ some bm
      → e < block_num
      → k' < pointers_per_inode
      → k ≡ k'
      → set_pointer s b j k e
        ≡ ok (set_direct b j k' e, record s { free_blocks = some (taken e bm) })
  unfolding set_pointer
  set_pointer_lem s b bm k k' e mounted he hk same =
      rw (same, lt→ltb _ _ hk, mark_used_lem s bm mounted e he)

  set_pointer_overflow :
      (s : State D) (b : Bytes) (k e : ℕ)
      → pointers_per_inode ≤ k
      → set_pointer s b j k e ≡ fault out_of_bounds
  unfolding set_pointer
  set_pointer_overflow s b k e hk = rw (le→ltb _ _ hk)

  -- One round where a block is free.
  pub allocate-step :
      (r i available : ℕ) (b : Bytes) (s : State D) (bm : Bitmap) (e : ℕ)
      → s.free_blocks ≡ some bm
      → i + available < pointers_per_inode
      → fs_find_empty_block s ≡ ok (pos e)
      → e < block_num
      → allocate (suc r) i available j b s
        ≡ allocate r
            (i + 1)
            available
            j
            (set_direct b j (i + available) e)
            (record s { free_blocks = some (taken e bm) })
  unfolding allocate
  allocate-step r i available b s bm e mounted fits found he = rw (
    found,
    set_pointer_lem s b bm (wrap (i + available)) (i + available) e mounted he fits (omega arith),
  )

  Grown-refl : (b : Bytes) (bm : Bitmap) (k : ℕ) → IsZeroFrom b j k → Grown b bm j k 0 b bm
  Grown-refl b bm k z = record {
    shape = record {
      before = λ l h. z.before l (omega arith);
      after = λ l h. z.after l (omega arith);
    };
    kept = λ l h. refl;
    others = λ m l h ne. refl;
    valids_kept = λ m. refl;
    sizes_kept = λ m. refl;
    were_free = λ l p q. absurd (omega arith);
    counted = omega arith;
    only_taken = λ c h. h;
  }

  -- A round in front of `r` others.
  Grown-step :
      (b : Bytes) (bm : Bitmap) (k r e : ℕ) (b' : Bytes) (bm' : Bitmap)
      → bm e ≡ true
      → e < block_num
      → k < pointers_per_inode
      → Grown (set_direct b j k e) (taken e bm) j (k + 1) r b' bm'
      → Grown b bm j k (suc r) b' bm'
  Grown-step b bm k r e b' bm' free he hk g = record {
    shape = record {
      before = λ l h. g.shape.before l (omega arith);
      after = λ l h. g.shape.after l (omega arith);
    };
    kept = λ l h. ground (arith, g.kept l, direct-set_direct b j j k e l hk);
    others = λ m l h ne. ground (arith, g.others m l h ne, direct-set_direct b j m k e l hk h);
    valids_kept = λ m. g.valids_kept m ∙ valid-set_direct b j m k e hk;
    sizes_kept = λ m. g.sizes_kept m ∙ size-set_direct b j m k e hk;
    were_free = λ l p q. elim (Bool-cases (l == k)) [
      | inl here ↦ ground (arith, g.kept l, direct-set_direct b j j k e l hk)
      | inr later ↦ ground (arith, g.were_free l)
    ];
    counted = omega (arith, g.counted, count_free-taken block_num e bm he free);
    only_taken = λ c h. ground (arith, g.only_taken c h);
  }

  -- The rounds go through while blocks are free, and each takes the lowest free one.
  pub allocate-Grown :
      (r i available : ℕ) (b : Bytes) (s : State D) (bm : Bitmap)
      → s.meta_data.blocks ≡ block_num
      → s.free_blocks ≡ some bm
      → Owned D d n b bm
      → valid b j ≢ 0
      → IsZeroFrom b j (i + available)
      → i + available + r ≤ pointers_per_inode
      → r ≤ count_free block_num bm
      → (b' : Bytes) × (bm' : Bitmap) × (allocate r i available j b s
          ≡ ok (true, b', record s { free_blocks = some bm' }))
        × Owned D d n b' bm'
        × Grown b bm j (i + available) r b' bm'
  allocate-Grown zero i available b s bm blocks mounted o hv z fits enough = (
    b,
    bm,
    unfold allocate in ap (λ f. ok (true, b, record s { free_blocks = f })) mounted,
    o,
    Grown-refl b bm (i + available) z,
  )
  allocate-Grown (suc r) i available b s bm blocks mounted o hv z fits enough =
      let k = i + available in
      let (e, found, low) = find-free s bm mounted blocks (omega arith) in
      let b₁ = set_direct b j k e in
      let next : i + 1 + available ≡ k + 1 = omega arith in
      let (b', bm', run, o', g) =
        allocate-Grown r (i + 1) available b₁ (record s { free_blocks = some (taken e bm) })
          (taken e bm) blocks refl
          (Owned-set_direct b bm k e o hv low.free low.bounded (omega arith) z.before z.after)
          (λ q. hv (sym (valid-set_direct b j j k e (omega arith)) ∙ q))
          (rw next (
            IsZeroFrom-set_direct b k e z (omega arith) (omega (arith, o.low e low.free))
              low.bounded))
          (omega arith) (omega (arith, count_free-taken block_num e bm low.bounded low.free)) in
      (
        b',
        bm',
        allocate-step r i available b s bm e mounted (omega arith) found low.bounded ∙ run,
        o',
        Grown-step b bm k r e b' bm' low.free low.bounded (omega arith) (rw next at g),
      )

  -- With more rounds than pointers left and a block free for each of these and one more, the loop
  -- writes past the array of pointers.
  pub allocate-overflow :
      (r i available : ℕ) (b : Bytes) (s : State D) (bm : Bitmap)
      → s.meta_data.blocks ≡ block_num
      → s.free_blocks ≡ some bm
      → i + available ≤ pointers_per_inode
      → pointers_per_inode < i + available + r
      → pointers_per_inode < i + available + count_free block_num bm
      → allocate r i available j b s ≡ fault out_of_bounds
  allocate-overflow zero i available b s bm blocks mounted le over enough = absurd (omega arith)
  allocate-overflow (suc r) i available b s bm blocks mounted le over enough =
      let (e, found, low) = find-free s bm mounted blocks (omega arith) in
      elim (dec_lt (i + available) pointers_per_inode) [
        | yes room ↦
            allocate-step r i available b s bm e mounted room found low.bounded
            ∙ allocate-overflow r (i + 1) available (set_direct b j (i + available) e)
                (record s { free_blocks = some (taken e bm) }) (taken e bm) blocks refl
                (omega arith) (omega arith)
                (omega (arith, count_free-taken block_num e bm low.bounded low.free))
        | no full ↦
            unfold allocate in
            rw (found, set_pointer_overflow s b (wrap (i + available)) e (omega arith))
      ]
