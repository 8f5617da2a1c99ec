-- ===== src/Fs/Client/Refine.antt =====
-- Every session of a client on a disk that is formatted and mounted first.
use bit_computer.Common.{List, [], arith, length, ok, refl, true, ◌*◌, ◌+◌, ◌∷◌, ◌≡◌, ◌≤◌}
use bit_computer.Fs.Client.{
  Files, Op, after, all_allowed, allowed, calls, create_op, no_files, read_op, replay, replay_files,
  session, stat_op, write_op,
}
use bit_computer.Fs.Client.Calls.{create-AnswersAs, write-AnswersAs}
use bit_computer.Fs.Client.Reads.{read-AnswersAs, stat-AnswersAs}
use bit_computer.Fs.Client.Represents.{AnswersAs, Represents, Represents-no_files, call_memory}
use bit_computer.Fs.Disk.{DiskApi}
use bit_computer.Fs.Format.Mounted.{formatted, formatted-blocks, fs_mount-fs_format}
use bit_computer.Fs.Layout.{block_num, block_size}
use bit_computer.Fs.State.{Bitmap, State}

module _ {D : DiskApi} (s : State D) (bm : Bitmap) (fs : Files) (r : Represents s bm fs)
    (memory : call_memory ≤ s.heap) where
  -- With memory for six blocks every call that is considered answers as on the abstract files.
  call-AnswersAs : (op : Op) → allowed op fs ≡ true → AnswersAs s fs op
  unfolding allowed
  call-AnswersAs create_op fine = create-AnswersAs s bm fs r memory
  call-AnswersAs (write_op n bytes length offset) fine =
      write-AnswersAs s bm fs r memory n bytes length offset fine
  call-AnswersAs (read_op n buf length offset) fine =
      read-AnswersAs s bm fs r memory n buf length offset (ground (arith, fine))
  call-AnswersAs (stat_op n) fine = stat-AnswersAs s bm fs r memory n (ground (arith, fine))

module _ {D : DiskApi} where
  -- The calls from a disk that stands for the files.
  pub calls-replay :
      (ops : List Op) (s : State D) (bm : Bitmap) (fs : Files)
      → Represents s bm fs
      → call_memory * length ops ≤ s.heap
      → all_allowed ops fs ≡ true
      → (s' : State D) × (bm' : Bitmap) × (calls ops s ≡ ok (replay ops fs, s'))
        × Represents s' bm' (replay_files ops fs)
        × (s.heap ≤ s'.heap + call_memory * length ops)
  unfolding calls replay replay_files all_allowed length
  calls-replay [] s bm fs r memory fine = (s, bm, refl, r, omega arith)
  calls-replay (op ∷ ops) s bm fs r memory fine =
      let here : allowed op fs ≡ true = ground (arith, fine) in
      let later : all_allowed ops (after op fs) ≡ true = ground (arith, fine) in
      let (s₁, bm₁, run, r₁, heap) = call-AnswersAs s bm fs r (omega arith) op here in
      let (s₂, bm₂, run', r₂, heap') =
        calls-replay ops s₁ bm₁ (after op fs) r₁ (omega arith) later in
      (s₂, bm₂, rw run (rw run' refl), r₂, omega arith)

  -- Take any disk, with memory for two blocks, the bitmap and six blocks for each call, and any sequence of calls of
  -- `fs_create`, `fs_write`, `fs_read` and `fs_stat` in which a write goes to a file that has been created, begins at most at its
  -- end and ends in its first block, and the other calls name one of the ten inodes. Formatting, mounting
  -- and the calls succeed, and every result and every buffer that is read is that of the same calls on abstract
  -- files: numbered from 0 as they are created up to ten, a write keeping what is before its
  -- offset and ending the file, a read giving the first bytes of the file whatever its offset is. The
  -- disk that is left stands for the abstract files, and at most the memory that is asked for has been taken.
  pub session-replay :
      (ops : List Op) (s : State D)
      → 2 * block_size + block_num + call_memory * length ops ≤ s.heap
      → all_allowed ops no_files ≡ true
      → (s' : State D) × (bm' : Bitmap) × (session ops s ≡ ok ((true, replay ops no_files), s'))
        × Represents s' bm' (replay_files ops no_files)
        × (s.heap ≤ s'.heap + call_memory * length ops + block_size + block_num)
  unfolding session
  session-replay ops s memory fine =
      let (bm, formatted, mounted, v, unused, free) = fs_mount-fs_format s (omega arith) in
      let start =
        Represents-no_files _ bm v (formatted-blocks D s.disk) unused
          (λ c lo hi. (free c).1 (lo, hi)) in
      let (s', bm', run, r, heap) = calls-replay ops _ bm no_files start (omega arith) fine in
      (s', bm', rw formatted (rw mounted (rw run refl)), r, omega arith)
