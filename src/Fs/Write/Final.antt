-- ===== src/Fs/Write/Final.antt =====
-- The disk that `fs_write` leaves, and what the files on it hold.
use bit_computer.Common.{
  ==_self, Bytes, ap, arith, if◌then◌else◌, sym, ℕ, ◌%◌, ◌*◌, ◌+◌, ◌/◌, ◌<◌, ◌==◌, ◌∙◌, ◌≡◌, ◌≢◌,
  ◌≤◌, ◌⊎◌,
}
use bit_computer.Fs.Disk.{DiskApi}
use bit_computer.Fs.Layout.{
  block_num, block_size, direct, first_data_block, inode_count, pointers_per_inode, set_size, size,
  valid,
}
use bit_computer.Fs.Layout.Fields.{
  direct-set_size, direct_congr, size-set_size, size_congr, valid-set_size, valid_congr,
}
use bit_computer.Fs.Read.{count_free}
use bit_computer.Fs.State.{Bitmap, State, fs_read_block}
use bit_computer.Fs.Valid.Table.{Allocated, Allocated-congr}
use bit_computer.Fs.Valid.View.{
  IsValid, inode_block, inode_index, pointers, pointers-write, read-write_other, sizes, sizes-write,
  valids, valids-write,
}
use bit_computer.Fs.Write.{direct_pointers_len, inode_block_num, wrap}
use bit_computer.Fs.Write.Allocate.{Owned, pointers_with, valids_with}
use bit_computer.Fs.Write.Blocks.{BlocksWritten, IsTarget}
use bit_computer.Fs.Write.Sizes.{wanted_blocks}

-- Byte `p` of file `n`, through the file's pointers.
abbrev pub file_byte : (D : DiskApi) → D.Disk → ℕ → ℕ → ℕ
file_byte D d n p = fs_read_block D d (pointers D d n (p / block_size)) (p % block_size)

-- After a write of `length` bytes at `offset` into file `n`: the file holds the bytes at their place, its
-- size is where the write ended, it has the blocks that the write wanted and no others, the call has taken at most six
-- blocks from the heap, the file's other bytes are kept in the blocks that it had, and the other inodes and their
-- bytes have not changed.
pub record Wrote {D : DiskApi} (s : State D) (bm : Bitmap) (n : ℕ) (bytes : Bytes) (length : ℕ)
    (offset : ℕ) (s' : State D) (bm' : Bitmap) : Type 0 where
  pub consistent : IsValid s' bm'
  pub size_after : sizes D s'.disk n ≡ offset + length
  pub valid_after : valids D s'.disk n ≢ 0
  pub heap_after : s.heap ≤ s'.heap + (pointers_per_inode + 1) * block_size
  pub contents : (x : ℕ) → x < length → file_byte D s'.disk n (offset + x) ≡ bytes x
  pub kept :
      (p : ℕ)
      → p < pointers_per_inode * block_size
      → pointers D s.disk n (p / block_size) ≢ 0
      → (p < offset) ⊎ (offset + length ≤ p)
      → file_byte D s'.disk n p ≡ file_byte D s.disk n p
  pub other_valid : (m : ℕ) → m < inode_count → n ≢ m → valids D s'.disk m ≡ valids D s.disk m
  pub other_size : (m : ℕ) → m < inode_count → n ≢ m → sizes D s'.disk m ≡ sizes D s.disk m
  pub other_bytes :
      (m p : ℕ)
      → m < inode_count
      → n ≢ m
      → p < pointers_per_inode * block_size
      → valids D s.disk m ≢ 0
      → pointers D s.disk m (p / block_size) ≢ 0
      → file_byte D s'.disk m p ≡ file_byte D s.disk m p
  pub other_pointers :
      (m l : ℕ)
      → m < inode_count
      → n ≢ m
      → l < pointers_per_inode
      → pointers D s'.disk m l ≡ pointers D s.disk m l
  pub super_kept :
      (k : ℕ) → k < block_size → fs_read_block D s'.disk 0 k ≡ fs_read_block D s.disk 0 k
  pub pointers_beyond :
      (l : ℕ)
      → wanted_blocks length offset ≤ l
      → l < pointers_per_inode
      → pointers D s'.disk n l ≡ 0
  pub counted :
      count_free block_num bm' + wanted_blocks length offset
      ≡ count_free block_num bm + direct_pointers_len (inode_block D s.disk n) (inode_index n)

-- The tables at the inode whose block stands in memory.
module _ (D : DiskApi) (d : D.Disk) (n : ℕ) (b : Bytes) where
  valids_with_self : valids_with D d n b n ≡ valid b (inode_index n)
  valids_with_self = rw (==_self (inode_block_num n))

  pub pointers_with_self : (l : ℕ) → pointers_with D d n b n l ≡ direct b (inode_index n) l
  pointers_with_self l = rw (==_self (inode_block_num n))

-- What holds of the disk `f` at the end, in terms of the disk `d` before the data blocks were written and
-- of the block `b` of inode `n` in memory.
pub record Finished (D : DiskApi) (d : D.Disk) (n : ℕ) (b : Bytes) (bm : Bitmap) (bytes : Bytes)
    (length : ℕ) (offset : ℕ) (f : D.Disk) : Type 0 where
  pub allocated : Allocated (valids D f) (pointers D f) bm
  pub valids_after : (m : ℕ) → m < inode_count → valids D f m ≡ valids_with D d n b m
  pub sizes_after :
      (m : ℕ)
      → m < inode_count
      → sizes D f m ≡ (
          if n == m
          then offset + length
          else if inode_block_num n == inode_block_num m
          then size b (inode_index m)
          else sizes D d m)
  pub super_kept : (k : ℕ) → k < block_size → fs_read_block D f 0 k ≡ fs_read_block D d 0 k
  pub pointers_after :
      (m l : ℕ)
      → m < inode_count
      → l < pointers_per_inode
      → pointers D f m l ≡ pointers_with D d n b m l
  pub contents : (x : ℕ) → x < length → file_byte D f n (offset + x) ≡ bytes x
  pub kept :
      (m p : ℕ)
      → m < inode_count
      → p < pointers_per_inode * block_size
      → valids_with D d n b m ≢ 0
      → pointers_with D d n b m (p / block_size) ≢ 0
      → (n ≡ m → (x : ℕ) → x < length → p ≢ offset + x)
      → file_byte D f m p
        ≡ fs_read_block D d (pointers_with D d n b m (p / block_size)) (p % block_size)

-- From the block `b` of inode `n` as it stands in memory after the allocation.
module _ (D : DiskApi) (d : D.Disk) (n : ℕ) (hn : n < inode_count) (b : Bytes) (bm : Bitmap)
    (o : Owned D d n b bm) (hv : valid b (inode_index n) ≢ 0) (length offset : ℕ)
    (near : offset < block_size) (fits : offset + length ≤ pointers_per_inode * block_size)
    (set : (l : ℕ) → l * block_size < offset + length → direct b (inode_index n) l ≢ 0) where
  in_use : valids_with D d n b n ≢ 0
  in_use = rw valids_with_self hv

  -- The pointers that the write uses.
  pointer_bounds :
      (l : ℕ)
      → l < pointers_per_inode
      → direct b (inode_index n) l ≢ 0
      → (first_data_block ≤ direct b (inode_index n) l) × (direct b (inode_index n) l < block_num)
  pointer_bounds l hl ne =
      let e = pointers_with_self D d n b l in
      let lo = o.in_data n l hn hl in_use in
      let hi = o.in_range n l hn hl in_use in ground (arith, lo, hi, e)

  pub target : IsTarget b (inode_index n) length offset
  target = record {
    near = near;
    fits = fits;
    on_disk = λ l h. (pointer_bounds l (omega arith) (set l h)).1;
    apart = λ l m h h' e.
        let f = pointers_with_self D d n b in
        (o.distinct n l n m hn (omega arith) hn (omega arith) in_use in_use (rw f (set l h))
          (f l ∙ e ∙ sym (f m))).1;
  }

  -- After the data blocks have been written (`s₂`) and the block of the inode, with its new size.
  module _ (s₁ : State D) (on_disk : s₁.disk ≡ d) (bytes : Bytes) (s₂ : State D)
      (w : BlocksWritten s₁ b (inode_index n) bytes length offset 0 s₂) where
    abbrev final_block : Bytes
    final_block = set_size b (inode_index n) (wrap (offset + length))

    abbrev pub final : D.Disk
    final = D.disk_write s₂.disk (inode_block_num n) final_block

    -- The blocks of the inodes are not data blocks.
    low_kept :
        (c k : ℕ)
        → c < first_data_block
        → k < block_size
        → fs_read_block D s₂.disk c k ≡ fs_read_block D d c k
    low_kept c k hc hk =
        w.rest c k (omega arith) hk (λ x lo hi same. absurd (
          omega (
            arith,
            (pointer_bounds ((offset + x) / block_size) (omega arith)
                (set ((offset + x) / block_size) (omega arith))).0,
            same,
          )))
        ∙ ap (λ z. fs_read_block D z c k) on_disk

    high_kept :
        (c k : ℕ)
        → first_data_block ≤ c
        → c < block_num
        → k < block_size
        → fs_read_block D final c k ≡ fs_read_block D s₂.disk c k
    high_kept c k lo hi hk =
        read-write_other D s₂.disk (inode_block_num n) final_block (omega arith) c k hi hk
          (omega arith)

    module _ (m : ℕ) (hm : m < inode_count) where
      same_inode_block : (k : ℕ) → k < block_size → inode_block D s₂.disk m k ≡ inode_block D d m k
      same_inode_block k hk = low_kept (inode_block_num m) k (omega arith) hk

      valids-final : valids D final m ≡ valids_with D d n b m
      valids-final = ground (
        arith,
        valids-write D s₂.disk (inode_block_num n) final_block (omega arith) m hm,
        valid-set_size b (inode_index n) (inode_index m) (wrap (offset + length)),
        valid_congr _ _ same_inode_block (inode_index m) (omega arith),
      )

      pointers-final :
          (l : ℕ) → l < pointers_per_inode → pointers D final m l ≡ pointers_with D d n b m l
      pointers-final l hl = ground (
        arith,
        pointers-write D s₂.disk (inode_block_num n) final_block (omega arith) m hm l hl,
        direct-set_size b (inode_index n) (inode_index m) (wrap (offset + length)) l hl,
        direct_congr _ _ same_inode_block (inode_index m) (omega arith) l hl,
      )

      sizes-final : sizes D final m ≡ (
          if n == m
          then offset + length
          else if inode_block_num n == inode_block_num m
          then size b (inode_index m)
          else sizes D d m)
      sizes-final = ground (
        arith,
        sizes-write D s₂.disk (inode_block_num n) final_block (omega arith) m hm,
        size-set_size b (inode_index n) (inode_index m) (wrap (offset + length)),
        size_congr _ _ same_inode_block (inode_index m) (omega arith),
      )

    final-Allocated : Allocated (valids D final) (pointers D final) bm
    final-Allocated =
        Allocated-congr _ _ _ _ _ o valids-final (λ m l hm hl. pointers-final m hm l hl)

    -- The bytes of the write.
    final-contents : (x : ℕ) → x < length → file_byte D final n (offset + x) ≡ bytes x
    final-contents x h =
        let l = (offset + x) / block_size in
        let here : pointers D final n l ≡ direct b (inode_index n) l =
          pointers-final n hn l (omega arith) ∙ pointers_with_self D d n b l in
        let bounds = pointer_bounds l (omega arith) (set l (omega arith)) in
        ap (λ c. fs_read_block D final c ((offset + x) % block_size)) here
        ∙ high_kept (direct b (inode_index n) l) ((offset + x) % block_size) bounds.0 bounds.1
            (omega arith)
        ∙ w.written x (omega arith) h

    -- A byte of a file that the write does not reach, in a block that the file has.
    final-kept :
        (m p : ℕ)
        → m < inode_count
        → p < pointers_per_inode * block_size
        → valids_with D d n b m ≢ 0
        → pointers_with D d n b m (p / block_size) ≢ 0
        → (n ≡ m → (x : ℕ) → x < length → p ≢ offset + x)
        → file_byte D final m p
          ≡ fs_read_block D d (pointers_with D d n b m (p / block_size)) (p % block_size)
    final-kept m p hm hp used ne away =
        let l = p / block_size in
        let c = pointers_with D d n b m l in
        let lo = o.in_data m l hm (omega arith) used ne in
        let hi = o.in_range m l hm (omega arith) used in
        ap (λ z. fs_read_block D final z (p % block_size)) (pointers-final m hm l (omega arith))
        ∙ high_kept c (p % block_size) lo hi (omega arith)
        ∙ w.rest c (p % block_size) hi (omega arith) (λ x _ hx same there.
          let y = (offset + x) / block_size in
          let same' : pointers_with D d n b n y ≡ c = pointers_with_self D d n b y ∙ sym same in
          let own : pointers_with D d n b n y ≢ 0 = rw pointers_with_self (set y (omega arith)) in
          let (who, which) =
            o.distinct n y m l hn (omega arith) hm (omega arith) in_use used own same' in
          away who x hx (omega arith))
        ∙ ap (λ z. fs_read_block D z c (p % block_size)) on_disk

    pub final-Finished : Finished D d n b bm bytes length offset final
    final-Finished = record {
      allocated = final-Allocated;
      valids_after = valids-final;
      sizes_after = sizes-final;
      super_kept = λ k hk.
          read-write_other D s₂.disk (inode_block_num n) final_block (omega arith) 0 k (omega arith)
            hk (omega arith)
          ∙ low_kept 0 k (omega arith) hk;
      pointers_after = λ m l hm hl. pointers-final m hm l hl;
      contents = final-contents;
      kept = final-kept;
    }
