-- ===== src/Fs/State.antt =====
-- The state that the functions of shell_in_c/fs/src/common/fs.c work on: `FileSystem`, the disk behind
-- it, and the heap that `malloc` takes from.
use bit_computer.Common.{
  Bool, Bytes, Option, Run, false, fault, if◌then◌else◌, leb, le→leb, ltb, lt→leb, none,
  null_pointer, ok, out_of_bounds, some, zeros, ℕ, ◌-◌, ◌<◌, ◌==◌, ◌≡◌, ◌≤◌,
}
use bit_computer.Fs.Disk.{DiskApi}
use bit_computer.Fs.Layout.{SuperBlock, block_num}

-- `bool *free_blocks`: an array of `block_num` tests, true where a block is free.
abbrev pub Bitmap : Type 0
Bitmap = ℕ → Bool

-- `FileSystem`, with the heap's free bytes. `free_blocks` is `none` where the pointer is null.
pub record State (D : DiskApi) : Type 0 where
  pub heap : ℕ
  pub disk : D.Disk
  pub free_blocks : Option Bitmap
  pub meta_data : SuperBlock

-- `malloc(n)` of the free bytes of the heap: what is left of them, or a null pointer.
unfoldable pub malloc : ℕ → ℕ → Option ℕ
malloc n heap = if leb n heap then some (heap - n) else none

pub malloc_ok : (n heap : ℕ) → n ≤ heap → malloc n heap ≡ some (heap - n)
unfolding malloc
malloc_ok n heap h = rw (le→leb n heap h)

pub malloc_null : (n heap : ℕ) → heap < n → malloc n heap ≡ none
unfolding malloc
malloc_null n heap h = rw (lt→leb n heap h)

-- `bitmap[p] = false`
unfoldable pub clear_bit : ℕ → Bitmap → Run Bitmap
clear_bit p bm =
    if ltb p block_num then ok (λ i. if p == i then false else bm i) else fault out_of_bounds

-- A read into a cleared block.
unfoldable pub fs_read_block : (D : DiskApi) → D.Disk → ℕ → Bytes
fs_read_block D d b = D.disk_read d b zeros

module _ {D : DiskApi} where
  -- `fs->free_blocks[b] = false`
  unfoldable pub mark_used : State D → ℕ → Run (State D)
  unfolding clear_bit
  mark_used s b = elim s.free_blocks [
    | none ↦ fault null_pointer
    | some bm ↦ elim (clear_bit b bm) [
      | fault e ↦ fault e
      | ok bm' ↦ ok (record s { free_blocks = some bm' })
    ]
  ]
