-- ===== src/Fs/Client/Witnesses.antt =====
-- A session of a client at a concrete disk.
use bit_computer.Common.{
  List, [], arith, bytes_of, from_list, length, negsuc, none, ok, pos, refl, true, zeros, ◌*◌, ◌+◌,
  ◌∷◌, ◌≡◌, ◌≤◌,
}
use bit_computer.Fs.Bitmap.{fs_mount}
use bit_computer.Fs.Client.{
  Op, after, all_allowed, allowed, calls, create_op, expected, no_files, read_op, replay,
  replay_files, session, stat_op, write_op,
}
use bit_computer.Fs.Client.Refine.{session-replay}
use bit_computer.Fs.Client.Remount.{restarted, session-restart}
use bit_computer.Fs.Client.Represents.{Represents, call_memory}
use bit_computer.Fs.Disk.{block_store}
use bit_computer.Fs.Layout.{block_num, block_size}
use bit_computer.Fs.State.{Bitmap, State}

-- Two files are created; 3 bytes are written to the first, then 2 more at its end, and it is read; the second one is
-- empty; a read past the end and the size of an inode that is not in use are refused.
abbrev two_files : List Op
two_files =
    create_op
    ∷ create_op
    ∷ write_op 0 (from_list (1 ∷ 2 ∷ 3 ∷ [])) 3 0
    ∷ write_op 0 (from_list (8 ∷ 9 ∷ [])) 2 3
    ∷ read_op 0 zeros 5 0
    ∷ read_op 1 zeros 2 0
    ∷ read_op 0 zeros 6 0
    ∷ stat_op 0
    ∷ stat_op 2
    ∷ []

abbrev large_heap : State block_store
large_heap = record {
  heap = 30000;
  disk = λ b k. b + k;
  free_blocks = none;
  meta_data = record { magic = 0; blocks = 0; inode_blocks = 0; inodes = 0 };
}

session-replay_example :
    (s' : State block_store) × (bm' : Bitmap) × (session two_files large_heap
      ≡ ok (
        (
          true,
          (pos 0, [])
              ∷ (pos 1, [])
              ∷ (pos 0, [])
              ∷ (pos 0, [])
              ∷ (pos 0, 1 ∷ 2 ∷ 3 ∷ 8 ∷ 9 ∷ [])
              ∷ (pos 0, 0 ∷ 0 ∷ [])
              ∷ (negsuc 2, 0 ∷ 0 ∷ 0 ∷ 0 ∷ 0 ∷ 0 ∷ [])
              ∷ (pos 5, [])
              ∷ (negsuc 0, [])
              ∷ [],
        ),
        s',
      ))
    × Represents s' bm' (replay_files two_files no_files)
    × (large_heap.heap ≤ s'.heap + call_memory * length two_files + block_size + block_num)
unfolding length replay expected after all_allowed allowed bytes_of from_list
session-replay_example = session-replay two_files large_heap (omega arith) refl

-- After a restart the first file is read again.
abbrev read_again : List Op
read_again = read_op 0 zeros 5 0 ∷ create_op ∷ []

session-restart_example :
    (s₁ : State block_store) × (s₂ : State block_store) × (s₃ : State block_store) × (session
        two_files large_heap
      ≡ ok ((true, replay two_files no_files), s₁))
    × (fs_mount (restarted s₁ 9000 none large_heap.meta_data) ≡ ok (true, s₂))
    × (calls read_again s₂ ≡ ok (replay read_again (replay_files two_files no_files), s₃))
unfolding length all_allowed allowed after replay_files
session-restart_example =
    session-restart two_files read_again large_heap 9000 none large_heap.meta_data (omega arith)
      (omega arith) refl refl

-- What is read then.
read_bytes :
    replay read_again (replay_files two_files no_files)
    ≡ (pos 0, 1 ∷ 2 ∷ 3 ∷ 8 ∷ 9 ∷ []) ∷ (pos 2, []) ∷ []
unfolding replay replay_files expected after bytes_of from_list
read_bytes = refl
