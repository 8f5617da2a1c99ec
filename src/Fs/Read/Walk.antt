-- ===== src/Fs/Read/Walk.antt =====
-- `fs_inodes_walk`.
use bit_computer.Common.{Bytes, if◌then◌else◌, refl, some, suc, zero, ℕ, ◌+◌, ◌==◌, ◌≡◌, ◌≤◌}
use bit_computer.Fs.Disk.{DiskApi}
use bit_computer.Fs.Layout.{block_size, inode_count}
use bit_computer.Fs.Read.{fs_inodes_walk, walk_blocks, walk_inodes}
use bit_computer.Fs.State.{State, malloc_ok}
use bit_computer.Fs.Valid.View.{inode_block, inode_index, valids}

module _ {ℓ} (D : DiskApi) {S : Type ℓ} (visitor : Bytes → ℕ → S → S) where
  -- The inodes in use from number `n` on, `k` numbers of them, in their order.
  unfoldable pub visit : D.Disk → ℕ → ℕ → S → S
  visit d zero n acc = acc
  visit d (suc k) n acc =
      visit d k (n + 1)
        (if valids D d n == 0 then acc else visitor (inode_block D d n) (inode_index n) acc)

  -- With memory for a block, `fs_inodes_walk` calls the visitor once for each inode in use, in the
  -- order of their numbers.
  pub fs_inodes_walk-visit :
      (s : State D) (acc : S)
      → block_size ≤ s.heap
      → fs_inodes_walk s visitor acc ≡ some (visit s.disk inode_count 0 acc)
  unfolding fs_inodes_walk walk_blocks walk_inodes visit
  fs_inodes_walk-visit s acc h = rw (malloc_ok block_size s.heap h, fs_inodes_walk) refl
