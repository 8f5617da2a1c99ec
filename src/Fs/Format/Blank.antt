-- ===== src/Fs/Format/Blank.antt =====
-- What `fs_format` leaves, and what a mount makes of it.
use bit_computer.Common.{
  Bool-cases, Bytes, ap, arith, if◌then◌else◌, inl, inr, leb, ltb, poke, refl, set_u32, suc, zero,
  zeros, ℕ, ◌&&◌, ◌*◌, ◌+◌, ◌<◌, ◌==◌, ◌∙◌, ◌≡◌, ◌≤◌,
}
use bit_computer.Fs.Disk.{DiskApi}
use bit_computer.Fs.Format.{format_blocks, format_inode, format_inodes, zero_pointers}
use bit_computer.Fs.Layout.{
  block_num, block_size, first_inode_block, inode_size, inodes_per_block, set_direct, set_name,
  set_size, set_valid,
}
use bit_computer.Fs.State.{fs_read_block}

abbrev IsZero : Bytes → Type 0
IsZero b = (k : ℕ) → b k ≡ 0

set_u32-IsZero : (m : Bytes) (at : ℕ) → IsZero m → IsZero (set_u32 m at 0)
unfolding set_u32
set_u32-IsZero m at h k = ground (arith, h k)

poke-IsZero : (m : Bytes) (i : ℕ) → IsZero m → IsZero (poke m i 0)
poke-IsZero m i h k = ground (arith, h k)

zero_pointers-IsZero : (n k j : ℕ) (b : Bytes) → IsZero b → IsZero (zero_pointers n k j b)
unfolding zero_pointers
zero_pointers-IsZero zero k j b h = h
zero_pointers-IsZero (suc n) k j b h =
    zero_pointers-IsZero n (k + 1) j (set_direct b j k 0)
      (set_u32-IsZero b (inode_size * j + 72 + 4 * k) h)

format_inode-IsZero : (i j : ℕ) (b : Bytes) → IsZero b → IsZero (format_inode i j b)
unfolding format_inode
format_inode-IsZero i j b h =
    let cleared = set_name (set_size (set_valid b j 0) j 0) j 0 0 in
    let c : IsZero cleared =
      poke-IsZero _ (inode_size * j + 0)
        (set_u32-IsZero _ (inode_size * j + 68) (set_u32-IsZero b (inode_size * j + 64) h)) in
    elim (Bool-cases ((i == first_inode_block) && (j == 0))) [
      | inl same ↦ rw same (zero_pointers-IsZero 5 0 j b h)
      | inr other ↦ rw other (zero_pointers-IsZero 5 0 j cleared c)
    ]

format_inodes-IsZero : (n j i : ℕ) (b : Bytes) → IsZero b → IsZero (format_inodes n j i b)
unfolding format_inodes
format_inodes-IsZero zero j i b h = h
format_inodes-IsZero (suc n) j i b h =
    format_inodes-IsZero n (j + 1) i (format_inode i j b) (format_inode-IsZero i j b h)

pub fs_read_block-write :
    (D : DiskApi) (d : D.Disk) (b : ℕ) (x : Bytes) (c k : ℕ)
    → b < block_num
    → c < block_num
    → k < block_size
    → fs_read_block D (D.disk_write d b x) c k ≡ (if b == c then x k else fs_read_block D d c k)
unfolding fs_read_block
fs_read_block-write D d b x c k hb hc hk = D.read-write d b x c zeros k hb hc hk

first_or_later :
    (i n c x y : ℕ)
    → x ≡ 0
    → (if leb (i + 1) c && ltb c (i + 1 + n) then 0 else (if i == c then x else y))
      ≡ (if leb i c && ltb c (i + suc n) then 0 else y)
first_or_later i n c x y h = ground arith

-- The loop over the inode blocks clears them and leaves the other blocks alone.
pub format_blocks-read :
    (D : DiskApi) (n i : ℕ) (d : D.Disk) (c k : ℕ)
    → i + n ≤ block_num
    → c < block_num
    → k < block_size
    → fs_read_block D (format_blocks D n i d) c k
      ≡ (if leb i c && ltb c (i + n) then 0 else fs_read_block D d c k)
unfolding format_blocks
format_blocks-read D zero i d c k h hc hk = ground arith
format_blocks-read D (suc n) i d c k h hc hk =
    let b = format_inodes inodes_per_block 0 i zeros in
    let rest = format_blocks-read D n (i + 1) (D.disk_write d i b) c k (omega arith) hc hk in
    let here = fs_read_block-write D d i b c k (omega arith) hc hk in
    let blank = format_inodes-IsZero inodes_per_block 0 i zeros (λ _. refl) k in
    rest
    ∙ ap (λ r. if leb (i + 1) c && ltb c (i + 1 + n) then 0 else r) here
    ∙ first_or_later i n c _ _ blank
