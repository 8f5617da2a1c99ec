-- ===== src/Fs/Write.antt =====
-- shell_in_c/fs/src/common/fs.c, `fs_write` and what it calls. `size_t` and `int` have 16 bits.
pub mod Pointers
pub mod Allocate
pub mod Blocks
pub mod Sizes
pub mod Final
pub mod Success
pub mod Full
use bit_computer.Common.{
  Bool, Bytes, Run, false, fault, if◌then◌else◌, leb, ltb, memcpy, negsuc, none, ok, out_of_bounds,
  out_of_fuel, pos, some, suc, to_int, to_size, true, zero, ℕ, ℤ, ◌%◌, ◌+◌, ◌-◌, ◌/◌, ◌==◌, ◌>>=◌,
  ◌^◌,
}
use bit_computer.Fs.Bitmap.{fs_find_empty_block}
use bit_computer.Fs.Disk.{DiskApi}
use bit_computer.Fs.Layout.{
  block_num, block_size, direct, first_inode_block, inodes_per_block, pointers_per_inode,
  set_direct, set_size,
}
use bit_computer.Fs.State.{State, fs_read_block, malloc, mark_used}

-- Wrap-around of `size_t`.
abbrev pub wrap : ℕ → ℕ
wrap x = x % 2 ^ 16

abbrev le_int : ℤ → ℤ → Bool
le_int (pos a) (pos b) = leb a b
le_int (pos a) (negsuc b) = false
le_int (negsuc a) (pos b) = true
le_int (negsuc a) (negsuc b) = leb b a

unfoldable pub min : ℤ → ℤ → ℤ
min a b = if le_int a b then a else b

-- `min(a, b)` of two `size_t`, whose result is stored in a `size_t`.
unfoldable pub min_size : ℕ → ℕ → ℕ
unfolding min to_int to_size
min_size a b = to_size (min (to_int a) (to_int b))

-- The index and the flag of the loop of `find_first`.
unfoldable pub find_first_loop : ℕ → (ℕ → ℕ) → ℕ → ℕ → Bool → ℕ × Bool
find_first_loop zero nums to_find i found = (i, found)
find_first_loop (suc n) nums to_find i true = (i, true)
find_first_loop (suc n) nums to_find i false =
    find_first_loop n nums to_find (i + 1) (nums i == to_find)

unfoldable pub find_first : (ℕ → ℕ) → ℕ → ℕ → ℤ
unfolding find_first_loop
find_first nums length to_find =
    let (i, found) = find_first_loop length nums to_find 0 false in
    if found then pos (i - 1) else negsuc 0

unfoldable pub direct_pointers_len : Bytes → ℕ → ℕ
unfolding find_first direct
direct_pointers_len b j = elim (find_first (direct b j) pointers_per_inode 0) [
  | negsuc _ ↦ pointers_per_inode
  | pos i ↦ i
]

-- The block that holds an inode.
abbrev pub inode_block_num : ℕ → ℕ
inode_block_num n = first_inode_block + n / inodes_per_block

-- The sizes that `fs_write` computes before it allocates.
unfoldable offset_allocations : ℕ → ℕ → ℕ
offset_allocations offset available = wrap (offset / block_size + 1 + 2 ^ 16 - available)

abbrev pub remaining_from_offset : ℕ → ℕ
remaining_from_offset offset = block_size - offset % block_size

unfoldable pub length_allocations : ℕ → ℕ → ℕ
length_allocations length offset =
    if leb length (remaining_from_offset offset)
    then 0
    else (length - remaining_from_offset offset) / block_size + 1

unfoldable pub total_allocations : ℕ → ℕ → ℕ → ℕ
unfolding offset_allocations length_allocations
total_allocations length offset available =
    wrap (offset_allocations offset available + length_allocations length offset)

module _ {D : DiskApi} where
  unfoldable pub fs_find_inode_2 : State D → ℕ → Bytes
  unfolding fs_read_block
  fs_find_inode_2 s n = fs_read_block D s.disk (inode_block_num n)

  -- `inode_ptr->direct[k] = e; fs->free_blocks[e] = false`
  unfoldable pub set_pointer : State D → Bytes → ℕ → ℕ → ℕ → Run (Bytes × State D)
  unfolding mark_used set_direct
  set_pointer s b j k e =
      if ltb k pointers_per_inode
      then (do s' ← mark_used s e; ok (set_direct b j k e, s'))
      else fault out_of_bounds

  -- The allocation loop from round `i`; false is the early return of -4.
  unfoldable pub allocate : ℕ → ℕ → ℕ → ℕ → Bytes → State D → Run (Bool × Bytes × State D)
  allocate zero i available j b s = ok (true, b, s)
  allocate (suc n) i available j b s = do
    found ← fs_find_empty_block s
    elim found [
      | negsuc _ ↦ ok (false, b, s)
      | pos e ↦ do
        (b', s') ← set_pointer s b j (wrap (i + available)) e
        allocate n (i + 1) available j b' s'
    ]

  -- `data` are the bytes from the pointer on. The block is not freed, and the caller does not look at
  -- the result, so a failed `malloc` leaves the state as it is.
  unfoldable pub fs_write_data_block : State D → ℕ → Bytes → ℕ → ℕ → Run (State D)
  unfolding malloc fs_read_block
  fs_write_data_block s block_num bytes length offset = elim (malloc block_size s.heap) [
    | none ↦ ok s
    | some heap ↦
        if leb (offset + length) block_size
        then ok (record s {
          heap = heap;
          disk =
              D.disk_write s.disk block_num
                (memcpy (fs_read_block D s.disk block_num) offset bytes length);
        })
        else fault out_of_bounds
  ]

  -- Pointer `i` is read and its block written.
  unfoldable pub write_round : Bytes → ℕ → Bytes → ℕ → ℕ → ℕ → ℕ → State D → Run (State D)
  write_round b j bytes offset i written remaining s =
      if ltb i pointers_per_inode
      then fs_write_data_block s (wrap (direct b j i)) (λ k. bytes (written + k)) remaining
          (wrap (offset + written) % block_size)
      else fault out_of_bounds

  -- The loop that writes the blocks. Every round writes a byte at least, so `length` rounds are enough.
  unfoldable pub write_blocks : ℕ → Bytes → ℕ → ℕ → Bytes → ℕ → ℕ → ℕ → ℕ → State D → Run (State D)
  write_blocks zero b j length bytes offset i written remaining s =
      if ltb written length then fault out_of_fuel else ok s
  write_blocks (suc n) b j length bytes offset i written remaining s = elim (ltb written length) [
    | false ↦ ok s
    | true ↦ do
      s' ← write_round b j bytes offset i written remaining s
      let written' = wrap (written + remaining)
      let remaining' = min_size (wrap (length + 2 ^ 16 - written')) block_size
      write_blocks n b j length bytes offset (i + 1) written' remaining' s'
  ]

  -- From the successful `malloc` on: `b` is the block with the inode `j`, `n` the inode's number.
  unfoldable pub fs_write_inode : State D → ℕ → Bytes → ℕ → Bytes → ℕ → ℕ → Run (ℤ × State D)
  fs_write_inode s n b j bytes length offset =
      let available = direct_pointers_len b j in
      let total = total_allocations length offset available in
      if available == 0
      then ok (negsuc 1, s)
      else if ltb pointers_per_inode (wrap (total + available))
      then ok (negsuc 2, s)
      else do
        (done, b', s') ← allocate total 0 available j b s
        elim done [
          | false ↦ ok (negsuc 3, s')
          | true ↦ do
            s'' ←
                write_blocks length b' j length bytes offset 0 0
                  (min_size length (remaining_from_offset offset)) s'
            ok (
              pos 0,
              record s'' {
                disk =
                    D.disk_write s''.disk (inode_block_num n)
                      (set_size b' j (wrap (offset + length)));
              },
            )
        ]

  -- The block of the inode is not freed on any path.
  unfoldable pub fs_write : State D → ℕ → Bytes → ℕ → ℕ → Run (ℤ × State D)
  fs_write s n bytes length offset = elim (malloc block_size s.heap) [
    | none ↦ ok (negsuc 0, s)
    | some heap ↦
        let s' = record s { heap = heap } in
        fs_write_inode s' n (fs_find_inode_2 s n) (n % inodes_per_block) bytes length offset
  ]
