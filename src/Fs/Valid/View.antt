-- ===== src/Fs/Valid/View.antt =====
-- The inodes of a disk as tables, and what a write of a block does to them.
use bit_computer.Common.{
  ==_iff, Bool-cases, Bytes, ap, ap₂, arith, if◌then◌else◌, inl, inr, some, true, zeros, ℕ, ◌%◌,
  ◌*◌, ◌+◌, ◌-◌, ◌<◌, ◌==◌, ◌≡◌, ◌≢◌, ◌≤◌,
}
use bit_computer.Fs.Disk.{DiskApi}
use bit_computer.Fs.Layout.{
  block_num, block_size, direct, first_inode_block, inode_count, inodes_per_block,
  pointers_per_inode, size, valid,
}
use bit_computer.Fs.Layout.Fields.{direct_congr, size_congr, valid_congr}
use bit_computer.Fs.State.{Bitmap, State, fs_read_block}
use bit_computer.Fs.Valid.Table.{Allocated}
use bit_computer.Fs.Write.{inode_block_num}

-- The block of inode `n`, and its index there.
abbrev pub inode_block : (D : DiskApi) → D.Disk → ℕ → Bytes
inode_block D d n = fs_read_block D d (inode_block_num n)

abbrev pub inode_index : ℕ → ℕ
inode_index n = n % inodes_per_block

abbrev pub valids : (D : DiskApi) → D.Disk → ℕ → ℕ
valids D d n = valid (inode_block D d n) (inode_index n)

abbrev pub sizes : (D : DiskApi) → D.Disk → ℕ → ℕ
sizes D d n = size (inode_block D d n) (inode_index n)

abbrev pub pointers : (D : DiskApi) → D.Disk → ℕ → ℕ → ℕ
pointers D d n k = direct (inode_block D d n) (inode_index n) k

-- Inodes of one block.
pub same_block :
    (D : DiskApi) (d : D.Disk) (x n : ℕ)
    → (inode_block_num x == inode_block_num n) ≡ true
    → inode_block D d x ≡ inode_block D d n
same_block D d x n h = ap (fs_read_block D d) ((==_iff _ _).0 h)

-- A consistent mounted file system: the size of the disk is known, and the bitmap in memory agrees with
-- the inodes on the disk.
pub record IsValid {D : DiskApi} (s : State D) (bm : Bitmap) : Type 0 where
  pub blocks : s.meta_data.blocks ≡ block_num
  pub mounted : s.free_blocks ≡ some bm
  pub allocated : Allocated (valids D s.disk) (pointers D s.disk) bm

module _ (D : DiskApi) (d : D.Disk) (b : ℕ) (x : Bytes) (hb : b < block_num) where
  -- A block after a write, byte by byte.
  pub read-write_same : (k : ℕ) → k < block_size → fs_read_block D (D.disk_write d b x) b k ≡ x k
  unfolding fs_read_block
  read-write_same k h = ground (arith, D.read-write d b x b zeros k hb hb h)

  pub read-write_other :
      (c k : ℕ)
      → c < block_num
      → k < block_size
      → b ≢ c
      → fs_read_block D (D.disk_write d b x) c k ≡ fs_read_block D d c k
  unfolding fs_read_block
  read-write_other c k hc h ne = ground (arith, D.read-write d b x c zeros k hb hc h)

  -- The tables after block `b` has been written with `x`.
  module _ (n : ℕ) (hn : n < inode_count) where
    pub valids-write :
        valids D (D.disk_write d b x) n
        ≡ (if b == inode_block_num n then valid x (inode_index n) else valids D d n)
    valids-write = elim (Bool-cases (b == inode_block_num n)) [
      | inl same ↦
          rw (same, ← (==_iff b (inode_block_num n)).0 same)
            (valid_congr _ x read-write_same (inode_index n) (omega arith))
      | inr other ↦ rw other (
          valid_congr _ _
            (λ k h. read-write_other (inode_block_num n) k (omega arith) h (ground arith))
            (inode_index n) (omega arith))
    ]

    pub sizes-write :
        sizes D (D.disk_write d b x) n
        ≡ (if b == inode_block_num n then size x (inode_index n) else sizes D d n)
    sizes-write = elim (Bool-cases (b == inode_block_num n)) [
      | inl same ↦
          rw (same, ← (==_iff b (inode_block_num n)).0 same)
            (size_congr _ x read-write_same (inode_index n) (omega arith))
      | inr other ↦ rw other (
          size_congr _ _
            (λ k h. read-write_other (inode_block_num n) k (omega arith) h (ground arith))
            (inode_index n) (omega arith))
    ]

    pub pointers-write :
        (k : ℕ)
        → k < pointers_per_inode
        → pointers D (D.disk_write d b x) n k
          ≡ (if b == inode_block_num n then direct x (inode_index n) k else pointers D d n k)
    pointers-write k hk = elim (Bool-cases (b == inode_block_num n)) [
      | inl same ↦
          rw (same, ← (==_iff b (inode_block_num n)).0 same)
            (direct_congr _ x read-write_same (inode_index n) (omega arith) k hk)
      | inr other ↦ rw other (
          direct_congr _ _
            (λ i h. read-write_other (inode_block_num n) i (omega arith) h (ground arith))
            (inode_index n) (omega arith) k hk)
    ]

-- Inode `j` of block `i`.
abbrev pub inode_at : ℕ → ℕ → ℕ
inode_at i j = inodes_per_block * (i - first_inode_block) + j

module _ (i j : ℕ) (hi : first_inode_block ≤ i) (hj : j < inodes_per_block) where
  pub place_num : inode_block_num (inode_at i j) ≡ i
  place_num = omega arith

  pub place_index : inode_index (inode_at i j) ≡ j
  place_index = omega arith

  pub valids-inode_at :
      (D : DiskApi) (d : D.Disk) → valids D d (inode_at i j) ≡ valid (fs_read_block D d i) j
  valids-inode_at D d = ap₂ valid (ap (fs_read_block D d) place_num) place_index

  pub pointers-inode_at :
      (D : DiskApi) (d : D.Disk) (k : ℕ)
      → pointers D d (inode_at i j) k ≡ direct (fs_read_block D d i) j k
  pointers-inode_at D d k = ap₂ (λ b l. direct b l k) (ap (fs_read_block D d) place_num) place_index
