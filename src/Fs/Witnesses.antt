-- ===== src/Fs/Witnesses.antt =====
-- The theorems on the file system at concrete disks.
use bit_computer.Common.{
  Bytes, arith, false, fault, get_u32, if◌then◌else◌, ltb, negsuc, ok, out_of_bounds, pos, refl,
  set_u32, some, true, zeros, ℕ, ◌+◌, ◌<◌, ◌↔◌, ◌≡◌, ◌≤◌,
}
use bit_computer.Fs.Bitmap.{fs_find_empty_block, fs_mount}
use bit_computer.Fs.Bitmap.Marks.{IsMarked}
use bit_computer.Fs.Bitmap.Mount.{fs_mount-IsValid, mounted_state}
use bit_computer.Fs.Bitmap.Search.{Answers, NoneFree, fs_find_empty_block-Answers}
use bit_computer.Fs.Create.{fs_create}
use bit_computer.Fs.Create.Scan.{fs_create-no_block}
use bit_computer.Fs.Disk.{block_store, store_read}
use bit_computer.Fs.Examples.{
  blocks_of_second, disk₂, disk₂-IsValid, files, files-IsConsistent, files-IsValid, files_bitmap,
  files_state, files_used, sizes-files, valids-files,
}
use bit_computer.Fs.Format.{fs_format}
use bit_computer.Fs.Format.Info.{fs_info-formatted}
use bit_computer.Fs.Format.Mounted.{formatted, fs_mount-fs_format}
use bit_computer.Fs.Layout.{block_num, direct, first_data_block, inode_count, set_super, super}
use bit_computer.Fs.Read.{count_free, fs_info, fs_inodes_walk, fs_read}
use bit_computer.Fs.Read.Success.{fs_read-Copied}
use bit_computer.Fs.Read.Walk.{fs_inodes_walk-visit, visit}
use bit_computer.Fs.Roundtrip.{ReadsBack, fs_read-fs_write}
use bit_computer.Fs.State.{Bitmap, State, fs_read_block}
use bit_computer.Fs.Valid.View.{IsValid, pointers, sizes, valids}
use bit_computer.Fs.Write.{
  direct_pointers_len, find_first, find_first_loop, fs_write, length_allocations,
}
use bit_computer.Fs.Write.Final.{Wrote, file_byte}
use bit_computer.Fs.Write.Full.{fs_write-full}
use bit_computer.Fs.Write.Sizes.{wanted_blocks}
use bit_computer.Fs.Write.Success.{blocks_of, fs_write-Wrote, fs_write-overflow, fs_write-too_long}

abbrev disk₅ : State block_store
disk₅ = files_state 5 (files_bitmap 5)

disk₅-IsValid : IsValid disk₅ (files_bitmap 5)
disk₅-IsValid = files-IsValid 5 (omega arith) (files_bitmap 5) (λ c h. h)

-- No block is free.
abbrev full_state : State block_store
full_state = files_state 2 (λ c. false)

full_state-IsValid : IsValid full_state (λ c. false)
full_state-IsValid = files-IsValid 2 (omega arith) (λ c. false) (λ c h. absurd (ground (arith, h)))

blocks_of_first :
    blocks_of disk₂ (files_bitmap 2) disk₂-IsValid 0 (omega arith) (files_used 0 (omega arith)) ≡ 2
unfolding direct_pointers_len find_first find_first_loop direct get_u32 fs_read_block store_read
blocks_of_first = refl

free_blocks : count_free block_num (files_bitmap 2) ≡ 52
unfolding count_free
free_blocks = refl

abbrev text : Bytes
text k = 65 + k

wanted_900 : wanted_blocks 900 100 ≡ 2
unfolding wanted_blocks length_allocations
wanted_900 = refl

-- 900 bytes at 100 into the file of one block, which gets a second one.
fs_write-Wrote_example :
    (s' : State block_store) × (bm' : Bitmap) × (fs_write disk₂ 1 text 900 100 ≡ ok (pos 0, s'))
    × Wrote disk₂ (files_bitmap 2) 1 text 900 100 s' bm'
fs_write-Wrote_example =
    fs_write-Wrote disk₂ (files_bitmap 2) disk₂-IsValid 1 (omega arith) (files_used 1 (omega arith))
      text 900 100 (omega arith) (omega arith) (omega arith) (omega (arith, wanted_900))
      (omega (arith, wanted_900, blocks_of_second))
      (omega (arith, wanted_900, blocks_of_second, free_blocks))

wanted_20 : wanted_blocks 20 0 ≡ 1
unfolding wanted_blocks length_allocations
wanted_20 = refl

fs_write-overflow_example : fs_write disk₂ 0 text 20 0 ≡ fault out_of_bounds
fs_write-overflow_example =
    fs_write-overflow disk₂ (files_bitmap 2) disk₂-IsValid 0 (omega arith)
      (files_used 0 (omega arith)) text 20 0 (omega arith) (omega arith) (omega arith)
      (omega (arith, wanted_20)) (omega (arith, wanted_20, blocks_of_first))
      (omega (arith, blocks_of_first, free_blocks))

wanted_2560 : wanted_blocks 2_560 0 ≡ 6
unfolding wanted_blocks length_allocations
wanted_2560 = refl

-- 2560 bytes would fit into the five blocks of a file.
fs_write-too_long_example :
    fs_write disk₂ 1 text 2_560 0 ≡ ok (negsuc 2, record disk₂ { heap = 9_488 })
fs_write-too_long_example =
    fs_write-too_long disk₂ (files_bitmap 2) disk₂-IsValid 1 (omega arith)
      (files_used 1 (omega arith)) text 2_560 0 (omega arith) (omega arith) (omega arith)
      (omega (arith, wanted_2560))

fs_read-fs_write_example :
    (s' : State block_store) × (bm' : Bitmap) × (fs_write disk₂ 1 text 300 0 ≡ ok (pos 0, s'))
    × IsValid s' bm'
    × (sizes block_store s'.disk 1 ≡ 300)
    × ReadsBack s' 1 text 300
fs_read-fs_write_example =
    fs_read-fs_write disk₂ (files_bitmap 2) disk₂-IsValid 1 (omega arith)
      (files_used 1 (omega arith)) blocks_of_second text 300 (omega arith) (omega arith)
      (omega arith)

fs_create-no_block_example :
    fs_create full_state ≡ ok (negsuc 0, record full_state { heap = 9_488 })
fs_create-no_block_example =
    fs_create-no_block full_state (λ c. false) full_state-IsValid (omega arith) 7 (omega arith)
      (valids-files 2 7 (omega arith) (omega arith)) (λ k a b. refl)

super-files : (super (fs_read_block block_store (files 2) 0)).blocks ≡ block_num
unfolding super set_super get_u32 set_u32 fs_read_block store_read
super-files = refl

fs_mount-IsValid_example :
    (bm : Bitmap) × (fs_mount full_state ≡ ok (true, mounted_state full_state bm))
    × IsValid (mounted_state full_state bm) bm
    × IsMarked (valids block_store (files 2)) (pointers block_store (files 2)) inode_count 0 bm
fs_mount-IsValid_example =
    fs_mount-IsValid full_state (files-IsConsistent 2 (omega arith)) super-files (omega arith)

fs_mount-fs_format_example :
    (bm : Bitmap) × (fs_format disk₅
      ≡ (true, record disk₅ { disk = formatted block_store (files 5) }))
    × (fs_mount (record disk₅ { disk = formatted block_store (files 5) })
        ≡ ok (true, mounted_state (record disk₅ { disk = formatted block_store (files 5) }) bm))
    × IsValid (mounted_state (record disk₅ { disk = formatted block_store (files 5) }) bm) bm
    × ((n : ℕ) → n < inode_count → valids block_store (formatted block_store (files 5)) n ≡ 0)
    × ((c : ℕ) → (bm c ≡ true) ↔ ((first_data_block ≤ c) × (c < block_num)))
fs_mount-fs_format_example = fs_mount-fs_format disk₅ (omega arith)

fs_read-Copied_example :
    (buf' : Bytes) × (fs_read disk₂ 0 zeros 80 20 ≡ ok (pos 0, buf', disk₂))
    × ((k : ℕ) → buf' k ≡ (if ltb k 80 then file_byte block_store (files 2) 0 k else 0))
fs_read-Copied_example =
    fs_read-Copied disk₂ (files_bitmap 2) disk₂-IsValid 0 (omega arith) (files_used 0 (omega arith))
      zeros 80 20 (omega arith) (omega (arith, sizes-files 2 0 (omega arith) (omega arith)))
      (omega arith) (omega arith)

fs_find_empty_block-Answers_example : Answers (files_bitmap 2) 0 (fs_find_empty_block disk₂)
fs_find_empty_block-Answers_example = fs_find_empty_block-Answers disk₂ (files_bitmap 2) refl refl

fs_inodes_walk-visit_example :
    fs_inodes_walk disk₂ (λ b j n. n + 1) 0
    ≡ some (visit block_store (λ b j n. n + 1) (files 2) inode_count 0 0)
fs_inodes_walk-visit_example =
    fs_inodes_walk-visit block_store (λ b j n. n + 1) disk₂ 0 (omega arith)

none_free : count_free block_num (λ c. false) ≡ 0
unfolding count_free
none_free = refl

-- A second block is wanted on a full disk.
fs_write-full_example :
    (s' : State block_store) × (bm' : Bitmap) × (fs_write full_state 1 text 900 100
      ≡ ok (negsuc 3, s'))
    × (s'.disk ≡ full_state.disk)
    × NoneFree bm' 0
    × IsValid s' bm'
fs_write-full_example =
    fs_write-full full_state (λ c. false) full_state-IsValid 1 (omega arith)
      (files_used 1 (omega arith)) text 900 100 (omega arith) (omega arith) (omega arith)
      (omega (arith, wanted_900)) (omega (arith, wanted_900, blocks_of_second, none_free))

fs_info-formatted_example :
    (s₁ : State block_store) × (s₂ : State block_store) × (bm : Bitmap) × (fs_format disk₂
      ≡ (true, s₁))
    × (fs_mount s₁ ≡ ok (true, s₂))
    × (s₂.free_blocks ≡ some bm)
    × (count_free 64 bm ≡ 58)
    × (fs_info s₂ ≡ ok (record { free_blocks = 36; total_blocks = 64; reserved_for_inodes = 5 }))
fs_info-formatted_example = fs_info-formatted disk₂ (omega arith)
