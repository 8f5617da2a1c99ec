-- ===== src/Fs/Layout/Fields.antt =====
-- The fields of the inodes of a block do not overlap.
use bit_computer.Common.{
  ℕ, ◌+◌, ◌*◌, ◌^◌, ◌<◌, ◌≡◌, arith, Bytes, get_u32-set_u32_self, get_u32-set_u32_ne, get_u32_congr,
  get_u32-poke, ◌==◌, if◌then◌else◌, ◌&&◌,
}
use bit_computer.Fs.Layout.{
  block_size, inodes_per_block, pointers_per_inode, valid, size, direct, set_valid, set_size,
  set_direct, set_name,
}

module _ (b : Bytes) (j i : ℕ) where
  pub valid-set_valid :
      (v : ℕ) → v < 2 ^ 32 → valid (set_valid b j v) i ≡ (if j == i then v else valid b i)
  unfolding valid set_valid
  valid-set_valid v h = ground (
    arith,
    get_u32-set_u32_self b (96 * j + 64) v,
    get_u32-set_u32_ne b (96 * j + 64) v (96 * i + 64),
  )

  pub valid-set_size : (v : ℕ) → valid (set_size b j v) i ≡ valid b i
  unfolding valid set_size
  valid-set_size v = get_u32-set_u32_ne b _ v _ (omega arith)

  pub valid-set_direct : (k v : ℕ) → k < 5 → valid (set_direct b j k v) i ≡ valid b i
  unfolding valid set_direct
  valid-set_direct k v h = get_u32-set_u32_ne b _ v _ (omega arith)

  pub valid-set_name : (k c : ℕ) → k < 64 → valid (set_name b j k c) i ≡ valid b i
  unfolding valid set_name
  valid-set_name k c h = get_u32-poke b _ c _ (omega arith)

  pub size-set_valid : (v : ℕ) → size (set_valid b j v) i ≡ size b i
  unfolding size set_valid
  size-set_valid v = get_u32-set_u32_ne b _ v _ (omega arith)

  pub size-set_size :
      (v : ℕ) → v < 2 ^ 32 → size (set_size b j v) i ≡ (if j == i then v else size b i)
  unfolding size set_size
  size-set_size v h = ground (
    arith,
    get_u32-set_u32_self b (96 * j + 68) v,
    get_u32-set_u32_ne b (96 * j + 68) v (96 * i + 68),
  )

  pub size-set_direct : (k v : ℕ) → k < 5 → size (set_direct b j k v) i ≡ size b i
  unfolding size set_direct
  size-set_direct k v h = get_u32-set_u32_ne b _ v _ (omega arith)

  pub size-set_name : (k c : ℕ) → k < 64 → size (set_name b j k c) i ≡ size b i
  unfolding size set_name
  size-set_name k c h = get_u32-poke b _ c _ (omega arith)

  pub direct-set_valid : (v l : ℕ) → l < 5 → direct (set_valid b j v) i l ≡ direct b i l
  unfolding direct set_valid
  direct-set_valid v l h = get_u32-set_u32_ne b _ v _ (omega arith)

  pub direct-set_size : (v l : ℕ) → l < 5 → direct (set_size b j v) i l ≡ direct b i l
  unfolding direct set_size
  direct-set_size v l h = get_u32-set_u32_ne b _ v _ (omega arith)

  pub direct-set_direct :
      (k v l : ℕ)
      → k < 5
      → l < 5
      → v < 2 ^ 32
      → direct (set_direct b j k v) i l ≡ (if (j == i) && (k == l) then v else direct b i l)
  unfolding direct set_direct
  direct-set_direct k v l hk hl hv = ground (
    arith,
    get_u32-set_u32_self b (96 * j + 72 + 4 * k) v,
    get_u32-set_u32_ne b (96 * j + 72 + 4 * k) v (96 * i + 72 + 4 * l),
  )

  pub direct-set_name : (k c l : ℕ) → k < 64 → l < 5 → direct (set_name b j k c) i l ≡ direct b i l
  unfolding direct set_name
  direct-set_name k c l hk hl = get_u32-poke b _ c _ (omega arith)

-- Blocks that agree byte by byte have the same fields.
module _ (x y : Bytes) (same : (k : ℕ) → k < block_size → x k ≡ y k) (j : ℕ)
    (in_block : j < inodes_per_block) where
  pub valid_congr : valid x j ≡ valid y j
  unfolding valid
  valid_congr =
      get_u32_congr x y _ (same _ (omega arith)) (same _ (omega arith)) (same _ (omega arith))
        (same _ (omega arith))

  pub size_congr : size x j ≡ size y j
  unfolding size
  size_congr =
      get_u32_congr x y _ (same _ (omega arith)) (same _ (omega arith)) (same _ (omega arith))
        (same _ (omega arith))

  pub direct_congr : (k : ℕ) → k < pointers_per_inode → direct x j k ≡ direct y j k
  unfolding direct
  direct_congr k h =
      get_u32_congr x y _ (same _ (omega arith)) (same _ (omega arith)) (same _ (omega arith))
        (same _ (omega arith))
