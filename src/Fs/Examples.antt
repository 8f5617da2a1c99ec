-- ===== src/Fs/Examples.antt =====
-- A disk with files, on the block store.
use bit_computer.Common.{
  Bool-cases, Bytes, arith, false, get_u32, if◌then◌else◌, inl, inr, leb, ltb, refl, some, sym,
  true, ℕ, ◌%◌, ◌&&◌, ◌*◌, ◌+◌, ◌/◌, ◌<◌, ◌==◌, ◌||◌, ◌∙◌, ◌≡◌, ◌≢◌, ◌≤◌,
}
use bit_computer.Fs.Bitmap.Mount.{IsConsistent, consistent-Allocated}
use bit_computer.Fs.Bitmap.Search.{taken}
use bit_computer.Fs.Disk.{Store, block_store, store_read}
use bit_computer.Fs.Format.{format_super}
use bit_computer.Fs.Layout.{
  block_num, block_size, direct, first_data_block, inode_blocks, inode_count, inode_size,
  magic_number, pointers_per_inode, size, valid,
}
use bit_computer.Fs.Layout.Fields.{direct_congr, size_congr, valid_congr}
use bit_computer.Fs.State.{Bitmap, State, fs_read_block}
use bit_computer.Fs.Valid.View.{IsValid, inode_block, pointers, sizes, valids}
use bit_computer.Fs.Write.{direct_pointers_len, find_first, find_first_loop}
use bit_computer.Fs.Write.Success.{blocks_of}

-- Byte `k` of block `c` of a disk whose first `m` blocks of inodes are in use: of the two inodes of such a
-- block the first has two blocks and the second has one, and both have 100 bytes.
abbrev file_block : ℕ → ℕ → Bytes
file_block m c k =
    if ltb 0 c && leb c m
    then (if (k == 64) || (k == 160)
        then 1
        else if (k == 68) || (k == 164)
        then 100
        else if k == 72
        then 3 + 3 * c
        else if k == 76
        then 4 + 3 * c
        else if k == 168
        then 5 + 3 * c
        else 0)
    else 0

abbrev pub files : ℕ → Store
files m c =
    if c == 0 then format_super else if ltb c first_data_block then file_block m c else (λ k. c + k)

abbrev pub files_bitmap : ℕ → Bitmap
files_bitmap m c = leb (3 * m + 6) c && ltb c block_num

abbrev pub files_state : ℕ → Bitmap → State block_store
files_state m bm = record {
  heap = 10_000;
  disk = files m;
  free_blocks = some bm;
  meta_data = record {
    magic = magic_number;
    blocks = block_num;
    inode_blocks = inode_blocks;
    inodes = 0;
  };
}

abbrev pointer_of : ℕ → ℕ → ℕ → ℕ
pointer_of m n k =
    if ltb n (2 * m)
    then (if k == 0
        then 6 + 3 * (n / 2) + 2 * (n % 2)
        else if (k == 1) && (n % 2 == 0)
        then 7 + 3 * (n / 2)
        else 0)
    else 0

inode_block-files :
    (m n k : ℕ)
    → n < inode_count
    → k < block_size
    → inode_block block_store (files m) n k ≡ file_block m (1 + n / 2) k
unfolding fs_read_block store_read
inode_block-files m n k hn hk = ground arith

valids_file :
    (m n : ℕ)
    → m ≤ 5
    → n < inode_count
    → valid (file_block m (1 + n / 2)) (n % 2) ≡ (if ltb n (2 * m) then 1 else 0)
unfolding valid get_u32
valids_file m n hm hn = ground arith

pub valids-files :
    (m n : ℕ)
    → m ≤ 5
    → n < inode_count
    → valids block_store (files m) n ≡ (if ltb n (2 * m) then 1 else 0)
valids-files m n hm hn =
    valid_congr _ _ (λ k h. inode_block-files m n k hn h) (n % 2) (omega arith)
    ∙ valids_file m n hm hn

sizes_file :
    (m n : ℕ)
    → m ≤ 5
    → n < inode_count
    → size (file_block m (1 + n / 2)) (n % 2) ≡ (if ltb n (2 * m) then 100 else 0)
unfolding size get_u32
sizes_file m n hm hn = ground arith

pub sizes-files :
    (m n : ℕ)
    → m ≤ 5
    → n < inode_count
    → sizes block_store (files m) n ≡ (if ltb n (2 * m) then 100 else 0)
sizes-files m n hm hn =
    size_congr _ _ (λ k h. inode_block-files m n k hn h) (n % 2) (omega arith)
    ∙ sizes_file m n hm hn

high_bytes : (m c at k : ℕ) → at % 4 ≡ 0 → 0 < k → k < 4 → file_block m c (at + k) ≡ 0
high_bytes m c at k h lo hi = ground arith

get_u32_file : (m c at : ℕ) → at % 4 ≡ 0 → get_u32 (file_block m c) at ≡ file_block m c at
unfolding get_u32
get_u32_file m c at h =
    let e = high_bytes m c at 1 h (omega arith) (omega arith) in
    let e' = high_bytes m c at 2 h (omega arith) (omega arith) in
    let e″ = high_bytes m c at 3 h (omega arith) (omega arith) in omega arith

pointers_file :
    (m n k : ℕ)
    → m ≤ 5
    → n < inode_count
    → k < pointers_per_inode
    → direct (file_block m (1 + n / 2)) (n % 2) k ≡ pointer_of m n k
unfolding direct
pointers_file m n k hm hn hk =
    get_u32_file m (1 + n / 2) (inode_size * (n % 2) + 72 + 4 * k) (omega arith) ∙ ground arith

pointers-files :
    (m n k : ℕ)
    → m ≤ 5
    → n < inode_count
    → k < pointers_per_inode
    → pointers block_store (files m) n k ≡ pointer_of m n k
pointers-files m n k hm hn hk =
    direct_congr _ _ (λ i h. inode_block-files m n i hn h) (n % 2) (omega arith) k hk
    ∙ pointers_file m n k hm hn hk

pointer_of-injective :
    (m n k x l : ℕ) → pointer_of m n k ≢ 0 → pointer_of m n k ≡ pointer_of m x l → (n ≡ x) × (k ≡ l)
pointer_of-injective m n k x l ne e = ground (arith, ne, e)

pointer_of-below : (m n k : ℕ) → m ≤ 5 → n < inode_count → pointer_of m n k < 3 * m + 6
pointer_of-below m n k hm hn = ground arith

taken_below :
    (m : ℕ) (bm : Bitmap)
    → ((c : ℕ) → bm c ≡ true → files_bitmap m c ≡ true)
    → (c : ℕ) → c < 3 * m + 6
    → bm c ≡ false
taken_below m bm h c lo = elim (Bool-cases (bm c)) [
  | inr taken ↦ taken
  | inl free ↦ (let yes = h c free in absurd (ground arith))
]

-- The inodes of such a disk own different blocks.
module _ (m : ℕ) (hm : m ≤ 5) where
  in_use : (n : ℕ) → n < inode_count → valids block_store (files m) n ≢ 0 → n < 2 * m
  in_use n hn files_used = ground (arith, valids-files m n hm hn)

  pub files-IsConsistent :
      IsConsistent (valids block_store (files m)) (pointers block_store (files m))
  files-IsConsistent = record {
    in_range = λ n k hn hk hv. rw (pointers-files m n k hm hn hk) (ground arith);
    in_data = λ n k hn hk hv ne.
        rw (pointers-files m n k hm hn hk) (ground (arith, pointers-files m n k hm hn hk));
    first =
        λ n hn hv. rw (pointers-files m n 0 hm hn (omega arith)) (ground (arith, in_use n hn hv));
    closed = λ n k l hn hl hv e h.
        rw (pointers-files m n l hm hn hl)
          (ground (arith, in_use n hn hv, pointers-files m n k hm hn (omega arith)));
    distinct = λ n k x l hn hk hx hl hv hw ne e.
        pointer_of-injective m n k x l (λ z. ne (pointers-files m n k hm hn hk ∙ z))
          (sym (pointers-files m n k hm hn hk) ∙ e ∙ pointers-files m x l hm hx hl);
  }

  pub files-IsValid :
      (bm : Bitmap)
      → ((c : ℕ) → bm c ≡ true → files_bitmap m c ≡ true)
      → IsValid (files_state m bm) bm
  files-IsValid bm h = record {
    blocks = refl;
    mounted = refl;
    allocated =
        consistent-Allocated _ _ bm files-IsConsistent (λ c free. (ground (arith, h c free)))
          (λ n k hn hk hv.
            rw (pointers-files m n k hm hn hk)
              (taken_below m bm h (pointer_of m n k) (pointer_of-below m n k hm hn)));
  }

-- Two blocks of inodes.
abbrev pub disk₂ : State block_store
disk₂ = files_state 2 (files_bitmap 2)

pub disk₂-IsValid : IsValid disk₂ (files_bitmap 2)
disk₂-IsValid = files-IsValid 2 (omega arith) (files_bitmap 2) (λ c h. h)

pub files_used : (n : ℕ) → n < 4 → valids block_store (files 2) n ≢ 0
files_used n h = rw (valids-files 2 n (omega arith) (omega arith)) (ground arith)

pub blocks_of_second :
    blocks_of disk₂ (files_bitmap 2) disk₂-IsValid 1 (omega arith) (files_used 1 (omega arith)) ≡ 1
unfolding direct_pointers_len find_first find_first_loop direct get_u32 fs_read_block store_read
blocks_of_second = refl
