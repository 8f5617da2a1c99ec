-- ===== src/Fs/Tests.antt =====
-- Runs of the file system on the block store.
use bit_computer.Common.{
  Bytes, Run, fault, for_range, get_u32, none, ok, out_of_bounds, pos, refl, set_u32, to_int, zeros,
  ℕ, ℤ, ◌+◌, ◌>>=◌, ◌≡◌,
}
use bit_computer.Fs.Bitmap.{
  fs_find_empty_block, fs_get_blocks_bitmap, fs_mount, mark_block, mark_inode, mark_pointer,
}
use bit_computer.Fs.Create.{fs_create}
use bit_computer.Fs.Disk.{block_store, store_read, store_write}
use bit_computer.Fs.Format.{format_blocks, format_inode, format_inodes, fs_format}
use bit_computer.Fs.Layout.{direct, set_size, set_super, size, super, valid}
use bit_computer.Fs.Read.{
  copy_block, copy_rounds, fs_info, fs_read, fs_read_inode, fs_stat, read_blocks,
}
use bit_computer.Fs.State.{State, clear_bit, fs_read_block, malloc}
use bit_computer.Fs.Write.{
  allocate, direct_pointers_len, fs_find_inode_2, fs_write, fs_write_data_block, fs_write_inode,
  min_size, set_pointer, total_allocations, write_blocks, write_round,
}

abbrev blank : State block_store
blank = record {
  heap = 20_000;
  disk = λ b k. 255;
  free_blocks = none;
  meta_data = record { magic = 0; blocks = 0; inode_blocks = 0; inodes = 0 };
}

program : ℕ
unfolding malloc clear_bit for_range mark_block mark_inode mark_pointer fs_get_blocks_bitmap super
    to_int copy_block copy_rounds read_blocks fs_read_inode valid size fs_read_block
    fs_find_empty_block set_pointer allocate fs_write_data_block min_size direct write_round
    write_blocks direct_pointers_len total_allocations set_size fs_find_inode_2 fs_write_inode
    get_u32 set_u32 store_read store_write fs_mount set_super format_blocks format_inodes
    format_inode fs_format fs_create fs_write fs_read fs_stat fs_info
program = 0

abbrev fresh : Run (State block_store)
fresh = do (_, s) ← fs_mount (fs_format blank).1; ok s

abbrev text : Bytes
text k = 65 + k

abbrev session : Run (ℤ × ℤ × ℤ × ℕ × ℕ × ℕ × ℤ × ℕ)
session = do
  s ← fresh
  counts ← fs_info s
  (n, s₁) ← fs_create s
  (m, s₂) ← fs_create s₁
  (w, s₃) ← fs_write s₂ 1 text 20 0
  (z, s₄) ← fs_stat s₃ 1
  (r, buf, s₅) ← fs_read s₄ 1 zeros 20 0
  ok (n, m, w, buf 0, buf 19, buf 20, z, s₅.heap)

session_result : session ≡ ok (pos 0, pos 1, pos 0, 65, 84, 0, pos 20, 17888)
unfolding program
session_result = refl

-- A second, shorter write to a file of two blocks leaves the bounds of the array of pointers.
abbrev rewrite : Run (ℤ × ℤ)
rewrite = do
  s ← fresh
  (n, s₁) ← fs_create s
  (w, s₂) ← fs_write s₁ 0 text 600 0
  (w', s₃) ← fs_write s₂ 0 text 20 0
  ok (w, w')

rewrite_result : rewrite ≡ fault out_of_bounds
unfolding program
rewrite_result = refl
