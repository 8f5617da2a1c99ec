-- ===== src/Fs/Write/Sizes.antt =====
-- The numbers of blocks that `fs_write` computes, for an offset in the first block.
use bit_computer.Common.{arith, ℕ, ◌*◌, ◌+◌, ◌-◌, ◌/◌, ◌<◌, ◌^◌, ◌≡◌, ◌≤◌}
use bit_computer.Fs.Layout.{block_size, pointers_per_inode}
use bit_computer.Fs.Write.{length_allocations, total_allocations, wrap}

-- The blocks that `fs_write` wants a file to have.
unfoldable pub wanted_blocks : ℕ → ℕ → ℕ
unfolding length_allocations
wanted_blocks length offset = length_allocations length offset + 1

module _ (length offset : ℕ) (near : offset < block_size) (small : length < 2 ^ 16) where
  -- Every byte of the write lies in one of these blocks.
  pub lt-wanted_blocks :
      (l : ℕ) → l * block_size < offset + length → l < wanted_blocks length offset
  unfolding wanted_blocks
  lt-wanted_blocks l h = ground arith

  -- At most one block more is wanted than the bytes need: one more exactly if the write ends at the end
  -- of a block other than the first.
  wanted_blocks_lem :
      block_size < offset + length
      → wanted_blocks length offset ≡ (offset + length) / block_size + 1
  unfolding wanted_blocks
  wanted_blocks_lem h = ground arith

  pub wanted_blocks-one : offset + length ≤ block_size → wanted_blocks length offset ≡ 1
  unfolding wanted_blocks
  wanted_blocks-one h = ground arith

  pub wanted_blocks-fits :
      wanted_blocks length offset ≤ pointers_per_inode
      → offset + length < pointers_per_inode * block_size
  unfolding wanted_blocks
  wanted_blocks-fits h = ground arith

  module _ (available : ℕ) (some_block : 0 < available)
      (bounded : available ≤ pointers_per_inode) where
    -- A file that has fewer blocks is extended to what is wanted.
    pub total_allocations-grow :
        available ≤ wanted_blocks length offset
        → total_allocations length offset available ≡ wanted_blocks length offset - available
    unfolding total_allocations wanted_blocks
    total_allocations-grow h = ground arith

    -- A file that has more blocks than wanted makes the difference wrap around.
    pub total_allocations-shrink :
        wanted_blocks length offset < available
        → total_allocations length offset available
          ≡ 2 ^ 16 - (available - wanted_blocks length offset)
    unfolding total_allocations wanted_blocks
    total_allocations-shrink h = ground arith

    -- In both cases the test against the number of pointers sees the number of wanted blocks.
    pub total_allocations-test :
        wrap (total_allocations length offset available + available) ≡ wanted_blocks length offset
    unfolding total_allocations wanted_blocks
    total_allocations-test = ground arith
