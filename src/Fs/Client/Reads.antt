-- ===== src/Fs/Client/Reads.antt =====
-- `fs_stat` and `fs_read` on a disk that stands for a client's files.
use Prim.Native.Nat.{min as least}
use native.Mathlib.Decide.{ℕ_discrete}
use bit_computer.Common.{
  ==_ne, Bool-cases, Bytes, ap, arith, bytes_of, bytes_of-congr, dec_lt, if◌then◌else◌, inl, inr,
  leb, length, le→leb, le→ltb, ltb, lt→ltb, negsuc, ok, pos, refl, to_int-small, true, ℕ, ◌+◌, ◌-◌,
  ◌<◌, ◌==◌, ◌||◌, ◌∙◌, ◌≡◌, ◌≤◌,
}
use bit_computer.Fs.Client.{Files, after, call, expected, read_op, stat_op}
use bit_computer.Fs.Client.Represents.{AnswersAs, Represents, call_memory, with_heap-Represents}
use bit_computer.Fs.Disk.{DiskApi}
use bit_computer.Fs.Layout.{block_size, inode_count}
use bit_computer.Fs.Read.{fs_read, fs_read_inode, fs_stat}
use bit_computer.Fs.Read.Success.{fs_read-Copied, read_blocks_over}
use bit_computer.Fs.State.{Bitmap, State, malloc}
use bit_computer.Fs.Valid.View.{inode_block, inode_index, sizes, valids}
use bit_computer.Fs.Write.{direct_pointers_len, fs_find_inode_2}

bytes_of-start :
    (n : ℕ) (a b : Bytes) → ((k : ℕ) → k < n → a k ≡ b k) → bytes_of n 0 a ≡ bytes_of n 0 b
bytes_of-start n a b same =
    bytes_of-congr n 0 0 a b (λ k h. let here : 0 + k ≡ k = omega arith in rw here (same k h))

module _ {D : DiskApi} (s : State D) (bm : Bitmap) (fs : Files) (r : Represents s bm fs)
    (memory : call_memory ≤ s.heap) where
  -- The size of a file, and -1 for an inode that is not in use.
  fs_stat-Files :
      (n : ℕ)
      → n < inode_count
      → fs_stat s n
        ≡ ok (
          if ltb n fs.count then pos (fs.file n).size else negsuc 0,
          record s { heap = s.heap - block_size },
        )
  unfolding fs_stat malloc fs_find_inode_2
  fs_stat-Files n low = elim (dec_lt n fs.count) [
    | yes h ↦
        let f = r.holds n h in
        let size = f.same_size in
        let used = f.in_use in
        let small = f.one_block in
        ground (arith, size, used, to_int-small (sizes D s.disk n) (omega arith))
    | no above ↦ ground (arith, r.unused n (omega arith) low)
  ]

  pub stat-AnswersAs : (n : ℕ) → n < inode_count → AnswersAs s fs (stat_op n)
  unfolding call expected after
  stat-AnswersAs n low = (
    record s { heap = s.heap - block_size },
    bm,
    rw (fs_stat-Files n low) refl,
    with_heap-Represents s bm fs r (s.heap - block_size),
    omega arith,
  )

  -- A read that copies nothing.
  fs_read-refused :
      (n : ℕ) (buf : Bytes) (length offset : ℕ)
      → n < inode_count
      → (leb fs.count n || ((fs.file n).size == 0)) ≡ true
      → fs_read s n buf length offset ≡ ok (pos 0, buf, record s { heap = s.heap - block_size })
  unfolding fs_read malloc fs_find_inode_2 fs_read_inode
  fs_read-refused n buf length offset low empty = elim (dec_lt n fs.count) [
    | yes h ↦ let size = (r.holds n h).same_size in ground (arith, size, empty)
    | no above ↦ ground (arith, r.unused n (omega arith) low)
  ]

  fs_read-too_long :
      (n : ℕ) (buf : Bytes) (length offset : ℕ)
      → n < fs.count
      → 0 < (fs.file n).size
      → (fs.file n).size < length
      → fs_read s n buf length offset ≡ ok (negsuc 2, buf, record s { heap = s.heap - block_size })
  unfolding fs_read malloc fs_find_inode_2 fs_read_inode
  fs_read-too_long n buf length offset hn more long =
      let f = r.holds n hn in
      let size = f.same_size in let used = f.in_use in ground (arith, size, used)

  module _ (n : ℕ) (buf : Bytes) (offset : ℕ) (hn : n < fs.count)
      (more : 0 < (fs.file n).size) where
    fs_read_inode-nothing :
        fs_read_inode s (s.heap - block_size) (inode_block D s.disk n) (inode_index n) buf 0
        ≡ ok (pos 0, buf, s)
    unfolding fs_read_inode malloc
    fs_read_inode-nothing =
        let f = r.holds n hn in
        let b = inode_block D s.disk n in
        let j = inode_index n in
        rw
          (
            ==_ne (valids D s.disk n) 0 f.in_use,
            ==_ne (sizes D s.disk n) 0 (omega (arith, f.same_size)),
            le→ltb (sizes D s.disk n) 0 (omega arith),
            le→leb block_size (s.heap - block_size) (omega arith),
          )
          (rw (read_blocks_over D s.disk b j (direct_pointers_len b j) 0 buf)
            (ap (λ h. ok (pos 0, buf, record s { heap = h })) (omega arith)))

    fs_read-nothing : fs_read s n buf 0 offset ≡ ok (pos 0, buf, s)
    unfolding fs_read malloc fs_find_inode_2
    fs_read-nothing = ground (arith, fs_read_inode-nothing)

  fs_read-File :
      (n : ℕ) (buf : Bytes) (length offset : ℕ)
      → n < fs.count
      → 0 < length
      → length ≤ (fs.file n).size
      → (buf' : Bytes) × (fs_read s n buf length offset ≡ ok (pos 0, buf', s))
        × ((k : ℕ) → k < length → buf' k ≡ (fs.file n).byte k)
  fs_read-File n buf length offset hn more within =
      let f = r.holds n hn in
      let low : n < inode_count = omega (arith, r.bounded) in
      let size = f.same_size in
      let small = f.one_block in
      let (buf', run, c) =
        fs_read-Copied s bm r.consistent n low f.in_use buf length offset more (omega arith)
          (omega arith) (omega arith) in
      (
        buf',
        run,
        λ k h.
            c k
            ∙ rw (lt→ltb k (least block_size length) (omega arith)) (f.same_bytes k (omega arith)),
      )

  -- `length` bytes of a file that are there.
  pub read_file :
      (n : ℕ) (buf : Bytes) (length offset : ℕ)
      → n < fs.count
      → 0 < (fs.file n).size
      → length ≤ (fs.file n).size
      → (buf' : Bytes) × (fs_read s n buf length offset ≡ ok (pos 0, buf', s))
        × ((k : ℕ) → k < length → buf' k ≡ (fs.file n).byte k)
  read_file n buf length offset hn more within = elim (ℕ_discrete length 0) [
    | yes nothing ↦ (
      buf,
      ap (λ k. fs_read s n buf k offset) nothing ∙ fs_read-nothing n buf offset hn more,
      λ k h. absurd (omega arith),
    )
    | no some_bytes ↦ fs_read-File n buf length offset hn (omega arith) within
  ]

  pub read-AnswersAs :
      (n : ℕ) (buf : Bytes) (length offset : ℕ)
      → n < inode_count
      → AnswersAs s fs (read_op n buf length offset)
  unfolding call expected after
  read-AnswersAs n buf length offset low =
      elim (Bool-cases (leb fs.count n || ((fs.file n).size == 0))) [
        | inl refused ↦ (
          record s { heap = s.heap - block_size },
          bm,
          rw (fs_read-refused n buf length offset low refused, refused) refl,
          with_heap-Represents s bm fs r (s.heap - block_size),
          omega arith,
        )
        | inr present ↦
            let hn : n < fs.count = ground (arith, present) in
            let more : 0 < (fs.file n).size = ground (arith, present) in
            elim (dec_lt (fs.file n).size length) [
              | yes long ↦ (
                record s { heap = s.heap - block_size },
                bm,
                rw (fs_read-too_long n buf length offset hn more long, present, lt→ltb _ _ long)
                    refl,
                with_heap-Represents s bm fs r (s.heap - block_size),
                omega arith,
              )
              | no short ↦
                  let (buf', run, same) = read_file n buf length offset hn more (omega arith) in
                  (
                    s,
                    bm,
                    rw (run, present, le→ltb (fs.file n).size length (omega arith))
                        (ap (λ l. ok ((pos 0, l), s))
                          (bytes_of-start length buf' (fs.file n).byte same)),
                    r,
                    omega arith,
                  )
            ]
      ]
