-- ===== src/Fs/Client/Remount.antt =====
-- A client's files after the machine has been switched off and on.
use bit_computer.Common.{
  List, Option, arith, inl, inr, length, ok, suc, true, zero, ℕ, ◌*◌, ◌+◌, ◌<◌, ◌≡◌, ◌≤◌,
}
use bit_computer.Fs.Bitmap.{fs_mount}
use bit_computer.Fs.Bitmap.Marks.{IsMarked}
use bit_computer.Fs.Bitmap.Mount.{IsConsistent, fs_mount-IsValid, mounted_state}
use bit_computer.Fs.Client.{Files, Op, all_allowed, calls, no_files, replay, replay_files, session}
use bit_computer.Fs.Client.Refine.{calls-replay, session-replay}
use bit_computer.Fs.Client.Represents.{Represents, call_memory}
use bit_computer.Fs.Disk.{DiskApi}
use bit_computer.Fs.Layout.{SuperBlock, block_num, block_size, inode_count}
use bit_computer.Fs.Read.{count_free}
use bit_computer.Fs.State.{Bitmap, State}
use bit_computer.Fs.Valid.Table.{free-ne-pointer}
use bit_computer.Fs.Valid.View.{pointers, valids}

count_free-monotone :
    (n : ℕ) (a b : Bitmap)
    → ((c : ℕ) → c < n → a c ≡ true → b c ≡ true)
    → count_free n a ≤ count_free n b
unfolding count_free
count_free-monotone zero a b more = omega arith
count_free-monotone (suc n) a b more =
    let rest = count_free-monotone n a b (λ c h. more c (omega arith)) in
    ground (arith, rest, more n (omega arith))

-- The machine after it has been switched on, with the same disk and whatever is in memory.
abbrev pub restarted : {D : DiskApi} → State D → ℕ → Option Bitmap → SuperBlock → State D
restarted s heap free_blocks meta_data = record s {
  heap = heap;
  free_blocks = free_blocks;
  meta_data = meta_data;
}

module _ {D : DiskApi} (s : State D) (bm : Bitmap) (fs : Files) (r : Represents s bm fs) where
  Represents-IsConsistent : IsConsistent (valids D s.disk) (pointers D s.disk)
  Represents-IsConsistent =
      let a = r.consistent.allocated in
      record {
        in_range = a.in_range;
        in_data = a.in_data;
        first = a.first;
        closed = a.closed;
        distinct = a.distinct;
      }

  -- A block that was free is free again.
  still_free :
      (bm' : Bitmap)
      → IsMarked (valids D s.disk) (pointers D s.disk) inode_count 0 bm'
      → (c : ℕ) → c < block_num
      → bm c ≡ true
      → bm' c ≡ true
  still_free bm' m c h free =
      let a = r.consistent.allocated in
      m.complete c (a.low c free) h (λ n k done hk hv.
        let hn : n < inode_count = elim done [ inl lt ↦ lt | inr (e, lt) ↦ absurd (omega arith) ] in
        free-ne-pointer (valids D s.disk) (pointers D s.disk) bm a c free h n k hn hk hv)

  -- Mounting the disk again finds the same files, whatever was in memory.
  fs_mount-Represents :
      (heap : ℕ) (free_blocks : Option Bitmap) (meta_data : SuperBlock)
      → 2 * block_size + block_num ≤ heap
      → (s' : State D) × (bm' : Bitmap) × (fs_mount (restarted s heap free_blocks meta_data)
          ≡ ok (true, s'))
        × Represents s' bm' fs
        × (heap ≡ s'.heap + block_size + block_num)
  fs_mount-Represents heap free_blocks meta_data memory =
      let (bm', run, v, m) =
        fs_mount-IsValid (restarted s heap free_blocks meta_data) Represents-IsConsistent r.labelled
          memory in
      (
        mounted_state (restarted s heap free_blocks meta_data) bm',
        bm',
        run,
        record {
          consistent = v;
          labelled = r.labelled;
          bounded = r.bounded;
          holds = r.holds;
          unused = r.unused;
          room = omega (arith, r.room, count_free-monotone block_num bm bm' (still_free bm' m));
        },
        omega arith,
      )

-- Take any disk, and a session as `session-replay` considers it. After it the machine may be switched off: with
-- whatever in its memory, and room for two blocks, the bitmap and six blocks for each further call, `fs_mount` succeeds
-- on the disk that the session has left, and further calls, considered in the same way from
-- the files that there are, give the results and the buffers of the same calls on these files.
pub session-restart :
    {D : DiskApi} (ops later : List Op) (s : State D) (heap : ℕ) (free_blocks : Option Bitmap)
    (meta_data : SuperBlock)
    → 2 * block_size + block_num + call_memory * length ops ≤ s.heap
    → 2 * block_size + block_num + call_memory * length later ≤ heap
    → all_allowed ops no_files ≡ true
    → all_allowed later (replay_files ops no_files) ≡ true
    → (s₁ : State D) × (s₂ : State D) × (s₃ : State D) × (session ops s
        ≡ ok ((true, replay ops no_files), s₁))
      × (fs_mount (restarted s₁ heap free_blocks meta_data) ≡ ok (true, s₂))
      × (calls later s₂ ≡ ok (replay later (replay_files ops no_files), s₃))
session-restart ops later s heap free_blocks meta_data memory memory' fine fine' =
    let (s₁, bm, run, r, _) = session-replay ops s memory fine in
    let fs = replay_files ops no_files in
    let (s₂, bm₂, mounted, r₂, left) =
      fs_mount-Represents s₁ bm fs r heap free_blocks meta_data (omega arith) in
    let (s₃, _, run', _, _) = calls-replay later s₂ bm₂ fs r₂ (omega arith) fine' in
    (s₁, s₂, s₃, run, mounted, run')
