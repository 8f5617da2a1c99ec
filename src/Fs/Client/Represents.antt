-- ===== src/Fs/Client/Represents.antt =====
-- The disks that stand for the abstract files of a client, and the one that formatting and mounting give.
use native.Mathlib.Decide.{ℕ_discrete}
use bit_computer.Common.{
  ==_ne, ==_self, Bytes, ap, arith, dec_lt, get_u32_congr, inl, length, le→ltb, lt→ltb, ok, refl,
  subst, suc, sym, true, zero, ℕ, ◌*◌, ◌+◌, ◌-◌, ◌/◌, ◌<◌, ◌∙◌, ◌≡◌, ◌≢◌, ◌≤◌,
}
use bit_computer.Fs.Client.{Content, Files, Op, after, call, expected, no_files, overwrite, update}
use bit_computer.Fs.Disk.{DiskApi}
use bit_computer.Fs.Layout.{
  block_num, block_size, first_data_block, inode_count, pointers_per_inode, super,
}
use bit_computer.Fs.Read.{count_free}
use bit_computer.Fs.Roundtrip.{with_heap-IsValid}
use bit_computer.Fs.State.{Bitmap, State, fs_read_block}
use bit_computer.Fs.Valid.View.{IsValid, inode_block, inode_index, pointers, sizes, valids}
use bit_computer.Fs.Write.Final.{Wrote, file_byte}
use bit_computer.Fs.Write.Pointers.{direct_pointers_len-IsLength}
use bit_computer.Fs.Write.Sizes.{wanted_blocks-one}
use bit_computer.Fs.Write.Success.{blocks_of, blocks_of-pos}

-- Inode `n` of the disk stands for the file `f`: it is in use, its size is that of the file, it has one block and no
-- other, and its bytes up to the size are those of the file.
pub record Holds (D : DiskApi) (d : D.Disk) (n : ℕ) (f : Content) : Type 0 where
  pub in_use : valids D d n ≢ 0
  pub same_size : sizes D d n ≡ f.size
  pub one_block : f.size ≤ block_size
  pub single : (l : ℕ) → 0 < l → l < pointers_per_inode → pointers D d n l ≡ 0
  pub same_bytes : (p : ℕ) → p < f.size → file_byte D d n p ≡ f.byte p

-- The mounted file system `s` stands for `fs`: the superblock is that of a formatted disk, exactly the first inodes are in use, each holds its file, and the free blocks
-- are enough for the inodes that are left.
pub record Represents {D : DiskApi} (s : State D) (bm : Bitmap) (fs : Files) : Type 0 where
  pub consistent : IsValid s bm
  pub labelled : (super (fs_read_block D s.disk 0)).blocks ≡ block_num
  pub bounded : fs.count ≤ inode_count
  pub holds : (n : ℕ) → n < fs.count → Holds D s.disk n (fs.file n)
  pub unused : (n : ℕ) → fs.count ≤ n → n < inode_count → valids D s.disk n ≡ 0
  pub room : inode_count ≤ count_free block_num bm + fs.count

-- The memory that is enough for a call: six blocks.
abbrev pub call_memory : ℕ
call_memory = (pointers_per_inode + 1) * block_size

-- The call answers as the abstract files do, leaves a disk that stands for the files after it, and takes at most six blocks from
-- the heap.
abbrev pub AnswersAs : {D : DiskApi} → State D → Files → Op → Type 0
AnswersAs {D} s fs op =
    (s' : State D) × (bm' : Bitmap) × (call op s ≡ ok (expected op fs, s'))
    × Represents s' bm' (after op fs)
    × (s.heap ≤ s'.heap + call_memory)

pub super_blocks_congr :
    (a b : Bytes) → ((k : ℕ) → k < block_size → a k ≡ b k) → (super a).blocks ≡ (super b).blocks
unfolding super
super_blocks_congr a b same =
    get_u32_congr a b 4 (same 4 (omega arith)) (same 5 (omega arith)) (same 6 (omega arith))
      (same 7 (omega arith))

-- Blocks that are all free count.
count_free-above :
    (n lo : ℕ) (bm : Bitmap) → ((c : ℕ) → lo ≤ c → c < n → bm c ≡ true) → n ≤ count_free n bm + lo
unfolding count_free
count_free-above zero lo bm h = omega arith
count_free-above (suc n) lo bm h = elim (dec_lt n lo) [
  | yes below ↦ omega arith
  | no above ↦ ground (
    arith,
    h n (omega arith) (omega arith),
    count_free-above n lo bm (λ c a b. h c a (omega arith)),
  )
]

-- A disk that has been formatted and mounted has no files.
pub Represents-no_files :
    {D : DiskApi} (s : State D) (bm : Bitmap)
    → IsValid s bm
    → (super (fs_read_block D s.disk 0)).blocks ≡ block_num
    → ((n : ℕ) → n < inode_count → valids D s.disk n ≡ 0)
    → ((c : ℕ) → first_data_block ≤ c → c < block_num → bm c ≡ true)
    → Represents s bm no_files
Represents-no_files s bm v labelled unused free = record {
  consistent = v;
  labelled = labelled;
  bounded = omega arith;
  holds = λ n h. absurd (omega arith);
  unused = λ n _ h. unused n h;
  room = omega (arith, count_free-above block_num first_data_block bm free);
}

-- The files after one has been set.
pub Holds-update :
    (D : DiskApi) (d : D.Disk) (n : ℕ) (f : Content) (file : ℕ → Content)
    → Holds D d n f
    → (m : ℕ) → (n ≢ m → Holds D d m (file m))
    → Holds D d m (update n f file m)
Holds-update D d n f file here m other = elim (ℕ_discrete n m) [
  | yes same ↦ subst (λ k. Holds D d k (update n f file k)) same (rw (==_self n) here)
  | no apart ↦ rw (==_ne n m apart) (other apart)
]

module _ {D : DiskApi} (s : State D) (bm : Bitmap) (fs : Files) (r : Represents s bm fs) where
  -- The heap does not matter.
  pub with_heap-Represents : (heap : ℕ) → Represents (record s { heap = heap }) bm fs
  with_heap-Represents heap = record {
    consistent = with_heap-IsValid s bm heap r.consistent;
    labelled = r.labelled;
    bounded = r.bounded;
    holds = r.holds;
    unused = r.unused;
    room = r.room;
  }

  -- A file has exactly one block.
  pub blocks_of_one :
      (n : ℕ) (hn : n < inode_count) (h : n < fs.count)
      → blocks_of s bm r.consistent n hn ((r.holds n h).in_use) ≡ 1
  blocks_of_one n hn h =
      let len = direct_pointers_len-IsLength (inode_block D s.disk n) (inode_index n) in
      let some_block = blocks_of-pos s bm r.consistent n hn ((r.holds n h).in_use) in
      elim (dec_lt 1 (blocks_of s bm r.consistent n hn ((r.holds n h).in_use))) [
        | yes more ↦
            absurd (len.pointer_before 1 more ((r.holds n h).single 1 (omega arith) (omega arith)))
        | no most ↦ omega arith
      ]

  -- A file that the write of another has not changed.
  Holds-other :
      (s' : State D) (bm' : Bitmap) (n m : ℕ) (bytes : Bytes) (length offset : ℕ)
      → n ≢ m
      → m < fs.count
      → Wrote s bm n bytes length offset s' bm'
      → Holds D s'.disk m (fs.file m)
  Holds-other s' bm' n m bytes length offset apart hm w =
      let h = r.holds m hm in
      let low : m < inode_count = omega (arith, r.bounded) in
      record {
        in_use = λ e. h.in_use (sym (w.other_valid m low apart) ∙ e);
        same_size = w.other_size m low apart ∙ h.same_size;
        one_block = h.one_block;
        single = λ l lo hl. w.other_pointers m l low apart hl ∙ h.single l lo hl;
        same_bytes = λ p hp.
            let zero : p / block_size ≡ 0 = omega (arith, h.one_block) in
            w.other_bytes m p low apart (omega (arith, h.one_block)) h.in_use
              (rw zero (r.consistent.allocated.first m low h.in_use))
            ∙ h.same_bytes p hp;
      }

  module _ (s' : State D) (bm' : Bitmap) (n : ℕ) (bytes : Bytes) (length offset : ℕ)
      (hn : n < fs.count) (near : offset ≤ (fs.file n).size) (inside : offset < block_size)
      (fits : offset + length ≤ block_size) (w : Wrote s bm n bytes length offset s' bm') where
    Holds-overwrite : Holds D s'.disk n (overwrite bytes length offset (fs.file n))
    Holds-overwrite =
        let h = r.holds n hn in
        let low : n < inode_count = omega (arith, r.bounded) in
        let one = wanted_blocks-one length offset inside (omega arith) fits in
        record {
          in_use = w.valid_after;
          same_size = w.size_after;
          one_block = fits;
          single = λ l lo hl. w.pointers_beyond l (omega (arith, one)) hl;
          same_bytes = λ p hp. elim (dec_lt p offset) [
            | yes before ↦
                let zero : p / block_size ≡ 0 = omega arith in
                w.kept p (omega arith) (rw zero (r.consistent.allocated.first n low h.in_use))
                  (inl before)
                ∙ h.same_bytes p (omega arith)
                ∙ rw (lt→ltb p offset before) refl
            | no beyond ↦
                let place : p ≡ offset + (p - offset) = omega arith in
                ap (file_byte D s'.disk n) place
                ∙ w.contents (p - offset) (omega arith)
                ∙ rw (le→ltb p offset (omega arith)) refl
          ];
        }

    -- After a write within the first block of a file.
    pub Wrote-Represents :
        Represents s' bm'
          (record fs { file = update n (overwrite bytes length offset (fs.file n)) fs.file })
    Wrote-Represents =
        let low : n < inode_count = omega (arith, r.bounded) in
        let one = wanted_blocks-one length offset inside (omega arith) fits in
        record {
          consistent = w.consistent;
          labelled = super_blocks_congr _ _ w.super_kept ∙ r.labelled;
          bounded = r.bounded;
          holds = λ m hm.
              Holds-update D s'.disk n _ fs.file Holds-overwrite m
                (λ apart. Holds-other s' bm' n m bytes length offset apart hm w);
          unused = λ m lo hm. w.other_valid m hm (λ e. omega arith) ∙ r.unused m lo hm;
          room = omega (arith, r.room, w.counted, one, blocks_of_one n low hn);
        }
