-- ===== src/Fs/Write/Success.antt =====
-- `fs_write` on a file of a consistent file system.
use Prim.Native.Nat.{min as least}
use bit_computer.Common.{
  ==_ne, ==_self, Bytes, ap, arith, dec_lt, false, fault, if◌then◌else◌, le→ltb, ltb, lt→ltb,
  negsuc, ok, out_of_bounds, pos, refl, some, subst, sym, true, ℕ, ◌%◌, ◌*◌, ◌+◌, ◌-◌, ◌/◌, ◌<◌,
  ◌==◌, ◌^◌, ◌∙◌, ◌≡◌, ◌≢◌, ◌≤◌,
}
use bit_computer.Fs.Disk.{DiskApi}
use bit_computer.Fs.Layout.{
  SuperBlock, block_num, block_size, direct, inode_count, pointers_per_inode, set_size, size, valid,
}
use bit_computer.Fs.Read.{count_free}
use bit_computer.Fs.State.{Bitmap, State, fs_read_block, malloc}
use bit_computer.Fs.Valid.Table.{Allocated-congr}
use bit_computer.Fs.Valid.View.{
  IsValid, inode_block, inode_index, pointers, same_block, sizes, valids,
}
use bit_computer.Fs.Write.{
  allocate, direct_pointers_len, fs_find_inode_2, fs_write, fs_write_inode, inode_block_num,
  min_size, remaining_from_offset, total_allocations, wrap,
}
use bit_computer.Fs.Write.Allocate.{
  Grown, IsZeroFrom, Owned, allocate-Grown, allocate-overflow, pointers_with, valids_with,
}
use bit_computer.Fs.Write.Blocks.{min_size-small, write_blocks-BlocksWritten}
use bit_computer.Fs.Write.Final.{
  Finished, Wrote, file_byte, final-Finished, pointers_with_self, target,
}
use bit_computer.Fs.Write.Pointers.{direct_pointers_len-IsLength}
use bit_computer.Fs.Write.Sizes.{
  lt-wanted_blocks, total_allocations-grow, total_allocations-shrink, total_allocations-test,
  wanted_blocks, wanted_blocks-fits,
}

module _ (D : DiskApi) (d : D.Disk) (n : ℕ) where
  -- The block as it is read from the disk changes nothing.
  valids_with-read : (m : ℕ) → valids_with D d n (inode_block D d n) m ≡ valids D d m
  valids_with-read m = ground (arith, same_block D d n m)

  pointers_with-read : (m l : ℕ) → pointers_with D d n (inode_block D d n) m l ≡ pointers D d m l
  pointers_with-read m l = ground (arith, same_block D d n m)

module _ {D : DiskApi} (s : State D) (bm : Bitmap) (v : IsValid s bm) (n : ℕ) (hn : n < inode_count)
    (used : valids D s.disk n ≢ 0) where
  -- The number of blocks of the file.
  abbrev pub blocks_of : ℕ
  blocks_of = direct_pointers_len (inode_block D s.disk n) (inode_index n)

  owned : Owned D s.disk n (inode_block D s.disk n) bm
  owned =
      Allocated-congr _ _ _ _ _ v.allocated (λ m hm. valids_with-read D s.disk n m)
        (λ m l hm hl. pointers_with-read D s.disk n m l)

  shape : IsZeroFrom (inode_block D s.disk n) (inode_index n) blocks_of
  shape =
      let len = direct_pointers_len-IsLength (inode_block D s.disk n) (inode_index n) in
      record {
        before = len.pointer_before;
        after = λ l lo hi. elim (dec_lt blocks_of l) [
          | yes later ↦
              v.allocated.closed n blocks_of l hn hi used (len.null_at (omega arith)) later
          | no same ↦ let e : l ≡ blocks_of = omega arith in rw e (len.null_at (omega arith))
        ];
      }

  -- A file has a block.
  pub blocks_of-pos : 0 < blocks_of
  blocks_of-pos =
      let len = direct_pointers_len-IsLength (inode_block D s.disk n) (inode_index n) in
      elim (dec_lt 0 blocks_of) [
        | yes h ↦ h
        | no h ↦
            let e : blocks_of ≡ 0 = omega arith in
            absurd (
              v.allocated.first n hn used (
                sym (ap (direct (inode_block D s.disk n) (inode_index n)) e)
                ∙ len.null_at (omega arith)))
      ]

  module _ (bytes : Bytes) (length offset : ℕ) (near : offset < block_size)
      (small : length < 2 ^ 16) (memory : (pointers_per_inode + 1) * block_size ≤ s.heap) where
    abbrev wanted : ℕ
    wanted = wanted_blocks length offset

    abbrev total : ℕ
    total = total_allocations length offset blocks_of

    abbrev started : State D
    started = record s { heap = s.heap - block_size }

    -- The call up to the allocation loop.
    pub fs_write-starts :
        fs_write s n bytes length offset
        ≡ fs_write_inode started n (inode_block D s.disk n) (inode_index n) bytes length offset
    unfolding fs_write fs_find_inode_2 malloc
    fs_write-starts = ground arith

    pub has_blocks : (blocks_of == 0) ≡ false
    has_blocks = ==_ne blocks_of 0 (omega (arith, blocks_of-pos))

    pub blocks_of_bounded : blocks_of ≤ pointers_per_inode
    blocks_of_bounded =
        (direct_pointers_len-IsLength (inode_block D s.disk n) (inode_index n)).bounded

    test : ltb pointers_per_inode (wrap (total + blocks_of)) ≡ ltb pointers_per_inode wanted
    test =
        ap (ltb pointers_per_inode) (
          total_allocations-test length offset near small blocks_of blocks_of-pos blocks_of_bounded)

    -- In the same setting, if more than five blocks are wanted, `fs_write` returns -3 and changes
    -- nothing but the heap, which loses a block.
    pub fs_write-too_long :
        pointers_per_inode < wanted → fs_write s n bytes length offset ≡ ok (negsuc 2, started)
    fs_write-too_long over =
        fs_write-starts ∙ unfold fs_write_inode in rw (has_blocks, test, lt→ltb _ _ over)

    module _ (enough : wanted ≤ pointers_per_inode) where
      pub goes_on : ltb pointers_per_inode (wrap (total + blocks_of)) ≡ false
      goes_on = test ∙ le→ltb _ _ enough

      -- In the same setting, if at most five blocks are wanted but fewer than the file has, the
      -- allocation loop writes past the array of pointers, provided that there are free blocks enough
      -- for it to get there.
      pub fs_write-overflow :
          wanted < blocks_of
          → pointers_per_inode < blocks_of + count_free block_num bm
          → fs_write s n bytes length offset ≡ fault out_of_bounds
      fs_write-overflow fewer free =
          let shrink =
            total_allocations-shrink length offset near small blocks_of blocks_of-pos
              blocks_of_bounded fewer in
          let run =
            allocate-overflow D s.disk n hn total 0 blocks_of (inode_block D s.disk n) started bm
              v.blocks v.mounted (omega (arith, blocks_of_bounded))
              (omega (arith, blocks_of_bounded)) (omega arith) in
          fs_write-starts ∙ unfold fs_write_inode in rw (has_blocks, goes_on, run)

      -- A pointer that is set is one of the file's blocks.
      in_blocks : (l : ℕ) → l < pointers_per_inode → pointers D s.disk n l ≢ 0 → l < blocks_of
      in_blocks l hl ne = elim (dec_lt l blocks_of) [
        | yes h ↦ h
        | no h ↦ absurd (ne (shape.after l (omega arith) hl))
      ]

      module _ (grows : blocks_of ≤ wanted)
          (free : wanted ≤ blocks_of + count_free block_num bm) where
        -- The file keeps its blocks and gets what is missing.
        grown :
            (b' : Bytes) × (bm' : Bitmap) × (allocate total 0 blocks_of
                (inode_index n)
                (inode_block D s.disk n)
                started
              ≡ ok (true, b', record started { free_blocks = some bm' }))
            × Owned D s.disk n b' bm'
            × Grown (inode_block D s.disk n) bm (inode_index n) blocks_of total b' bm'
        grown =
            let grow =
              total_allocations-grow length offset near small blocks_of blocks_of-pos
                blocks_of_bounded grows in
            let zero : 0 + blocks_of ≡ blocks_of = omega arith in
            let b = inode_block D s.disk n in
            let (b', bm', run, o', g) =
              allocate-Grown D s.disk n hn total 0 blocks_of b started bm v.blocks v.mounted owned
                used (subst (λ k. IsZeroFrom b (inode_index n) k) (sym zero) shape)
                (omega (arith, blocks_of_bounded)) (omega arith) in
            (b', bm', run, o', subst (λ k. Grown b bm (inode_index n) k total b' bm') zero g)

        -- The blocks that are missing.
        missing : total ≡ wanted - blocks_of
        missing =
            total_allocations-grow length offset near small blocks_of blocks_of-pos
              blocks_of_bounded grows

        -- The tables, with the block of the inode as it stands after the allocation.
        module _ (b' : Bytes) (bm' : Bitmap)
            (g : Grown (inode_block D s.disk n) bm (inode_index n) blocks_of total b' bm') where
          valids_grown : (m : ℕ) → valids_with D s.disk n b' m ≡ valids D s.disk m
          valids_grown m = ground (arith, g.valids_kept (inode_index m), same_block D s.disk n m)

          sizes_grown :
              (m : ℕ)
              → n ≢ m
              → (if n == m
                  then offset + length
                  else if inode_block_num n == inode_block_num m
                  then size b' (inode_index m)
                  else sizes D s.disk m)
                ≡ sizes D s.disk m
          sizes_grown m ne = ground (arith, g.sizes_kept (inode_index m), same_block D s.disk n m)

          pointers_grown :
              (m l : ℕ)
              → l < pointers_per_inode
              → (n ≡ m → l < blocks_of)
              → pointers_with D s.disk n b' m l ≡ pointers D s.disk m l
          pointers_grown m l hl old =
              ground (arith, g.others (inode_index m) l hl, g.kept l, old, same_block D s.disk n m)

          kept_bytes :
              {f : D.Disk}
              → Finished D s.disk n b' bm' bytes length offset f
              → (m p : ℕ) → m < inode_count
              → p < pointers_per_inode * block_size
              → valids D s.disk m ≢ 0
              → pointers D s.disk m (p / block_size) ≢ 0
              → (n ≡ m → p / block_size < blocks_of)
              → (n ≡ m → (x : ℕ) → x < length → p ≢ offset + x)
              → file_byte D f m p ≡ file_byte D s.disk m p
          kept_bytes f m p hm hp hvm hpm old away =
              let same = pointers_grown m (p / block_size) (omega arith) old in
              f.kept m p hm hp (λ e. hvm (sym (valids_grown m) ∙ e)) (λ e. hpm (sym same ∙ e)) away
              ∙ ap (λ c. fs_read_block D s.disk c (p % block_size)) same

          -- Nothing that is not the write's own changes.
          Finished-Wrote :
              (s' : State D)
              → IsValid s' bm'
              → Finished D s.disk n b' bm' bytes length offset s'.disk
              → s.heap ≤ s'.heap + (pointers_per_inode + 1) * block_size
              → Wrote s bm n bytes length offset s' bm'
          Finished-Wrote s' consistent f heap = record {
            consistent = consistent;
            heap_after = heap;
            size_after = f.sizes_after n hn ∙ rw (==_self n);
            valid_after = λ e. used (sym (valids_grown n) ∙ sym (f.valids_after n hn) ∙ e);
            contents = f.contents;
            kept = λ p hp ne away.
                kept_bytes f n p hn hp used ne (λ _. in_blocks (p / block_size) (omega arith) ne)
                  (λ _ x hx e. omega arith);
            other_valid = λ m hm ne. f.valids_after m hm ∙ valids_grown m;
            other_size = λ m hm ne. f.sizes_after m hm ∙ sizes_grown m ne;
            other_bytes = λ m p hm ne hp hvm hpm.
                kept_bytes f m p hm hp hvm hpm (λ e. absurd (ne e)) (λ e. absurd (ne e));
            other_pointers = λ m l hm ne hl.
                f.pointers_after m l hm hl ∙ pointers_grown m l hl (λ e. absurd (ne e));
            super_kept = f.super_kept;
            pointers_beyond = λ l lo hl.
                f.pointers_after n l hn hl
                ∙ pointers_with_self D s.disk n b' l
                ∙ g.shape.after l (omega (arith, missing)) hl;
            counted = omega (arith, missing, g.counted);
          }

        -- Take a consistent file system, a file in use, an offset in the first block, a length below
        -- 2^16, and memory for six blocks. If at most five blocks are wanted, not fewer than the file
        -- has, and the free blocks are enough for what is missing, `fs_write` returns 0 and does what
        -- `Wrote` says: the bytes stand at their place, the size is where the write ended, the file
        -- system stays consistent, and the other bytes of this file and of the others are kept.
        pub fs_write-Wrote :
            (s' : State D) × (bm' : Bitmap) × (fs_write s n bytes length offset ≡ ok (pos 0, s'))
            × Wrote s bm n bytes length offset s' bm'
        fs_write-Wrote =
            let (b', bm', run, o, g) = grown in
            let j = inode_index n in
            let grow =
              total_allocations-grow length offset near small blocks_of blocks_of-pos
                blocks_of_bounded grows in
            let fits : offset + length ≤ pointers_per_inode * block_size =
              omega (arith, wanted_blocks-fits length offset near small enough) in
            let set = λ (l : ℕ) (h : l * block_size < offset + length).
              g.shape.before l (omega (arith, lt-wanted_blocks length offset near small l h)) in
            let hv = λ (e : valid b' j ≡ 0). used (sym (g.valids_kept j) ∙ e) in
            let s₁ : State D = record started { free_blocks = some bm' } in
            let remaining = min_size length (remaining_from_offset offset) in
            let amount : remaining ≡ least (length - 0) (block_size - offset) =
              min_size-small length (remaining_from_offset offset) (omega arith) (omega arith)
              ∙ omega arith in
            let (s₂, run₂, w, heap) =
              write_blocks-BlocksWritten b' j bytes length offset
                (target D s.disk n hn b' bm' o hv length offset near fits set) length 0 offset 0
                remaining s₁ (λ h. record { place = omega arith; inside = near; amount = amount })
                (omega arith) (omega arith) in
            let f =
              final-Finished D s.disk n hn b' bm' o hv length offset near fits set s₁ refl bytes s₂
                w in
            let s' : State D = record s₂ {
              disk =
                  D.disk_write s₂.disk (inode_block_num n) (set_size b' j (wrap (offset + length)));
            } in
            (
              s',
              bm',
              fs_write-starts ∙ unfold fs_write_inode in rw (has_blocks, goes_on, run) (rw run₂),
              Finished-Wrote b' bm' g s'
                  (record {
                    blocks = ap (λ (z : SuperBlock). z.blocks) w.meta_data ∙ v.blocks;
                    mounted = w.free_blocks;
                    allocated = f.allocated;
                  })
                  f (omega arith),
            )
