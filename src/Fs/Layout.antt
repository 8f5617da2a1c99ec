-- ===== src/Fs/Layout.antt =====
-- shell_in_c/fs/include/fs.h: the constants, and the views of `union Block` over its bytes.
-- cc65 lays the fields of a structure out with no padding and stores a word low byte first, so
-- `sizeof(Inode)` is 64 + 4 + 4 + 5 * 4 + 4 = 96.
pub mod Fields
use bit_computer.Common.{
  ℕ, ◌+◌, ◌*◌, ◌^◌, ◌≤◌, ◌<◌, ◌≡◌, ◌⊎◌, Bool, true, not, ◌&&◌, arith, Bytes, get_u32, set_u32, poke,
  get_u32-set_u32_self, get_u32-set_u32_ne, get_u32_congr, ◌==◌, if◌then◌else◌, Bool-cases, inl,
  inr, ltb,
}

abbrev pub magic_number : ℕ
magic_number = 0xf0f03410

abbrev pub inodes_per_block : ℕ
inodes_per_block = 2

abbrev pub pointers_per_inode : ℕ
pointers_per_inode = 5

abbrev inode_name_max : ℕ
inode_name_max = 64

abbrev pub block_num : ℕ
block_num = 64

abbrev pub inode_blocks : ℕ
inode_blocks = 5

abbrev pub block_size : ℕ
block_size = 512

abbrev pub first_inode_block : ℕ
first_inode_block = 1

abbrev pub first_data_block : ℕ
first_data_block = 6

-- The inodes of the disk.
abbrev pub inode_count : ℕ
inode_count = 10

abbrev pub inode_size : ℕ
inode_size = 96

-- `block->super`
pub record SuperBlock : Type 0 where
  pub magic : ℕ
  pub blocks : ℕ
  pub inode_blocks : ℕ
  pub inodes : ℕ

unfoldable pub super : Bytes → SuperBlock
super b = record {
  magic = get_u32 b 0;
  blocks = get_u32 b 4;
  inode_blocks = get_u32 b 8;
  inodes = get_u32 b 12;
}

unfoldable pub set_super : Bytes → SuperBlock → Bytes
set_super b s =
    set_u32 (set_u32 (set_u32 (set_u32 b 0 s.magic) 4 s.blocks) 8 s.inode_blocks) 12 s.inodes

-- The fields of `block->inodes[j]`.
unfoldable pub valid : Bytes → ℕ → ℕ
valid b j = get_u32 b (inode_size * j + 64)

unfoldable pub size : Bytes → ℕ → ℕ
size b j = get_u32 b (inode_size * j + 68)

unfoldable pub direct : Bytes → ℕ → ℕ → ℕ
direct b j k = get_u32 b (inode_size * j + 72 + 4 * k)

unfoldable pub name : Bytes → ℕ → ℕ → ℕ
name b j i = b (inode_size * j + i)

unfoldable pub set_valid : Bytes → ℕ → ℕ → Bytes
set_valid b j v = set_u32 b (inode_size * j + 64) v

unfoldable pub set_size : Bytes → ℕ → ℕ → Bytes
set_size b j v = set_u32 b (inode_size * j + 68) v

unfoldable pub set_direct : Bytes → ℕ → ℕ → ℕ → Bytes
set_direct b j k v = set_u32 b (inode_size * j + 72 + 4 * k) v

unfoldable pub set_name : Bytes → ℕ → ℕ → ℕ → Bytes
set_name b j i c = poke b (inode_size * j + i) c
