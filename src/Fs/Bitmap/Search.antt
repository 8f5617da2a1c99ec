-- ===== src/Fs/Bitmap/Search.antt =====
-- The search for a free block, and the number of free blocks.
use bit_computer.Common.{
  Bool-cases, Run, arith, false, if◌then◌else◌, inl, inr, negsuc, ok, pos, refl, some, suc, true,
  zero, ℕ, ℤ, ◌+◌, ◌<◌, ◌==◌, ◌≡◌, ◌≤◌, ◌⊎◌,
}
use bit_computer.Fs.Bitmap.{first_free, fs_find_empty_block}
use bit_computer.Fs.Disk.{DiskApi}
use bit_computer.Fs.Layout.{block_num}
use bit_computer.Fs.Read.{count_free}
use bit_computer.Fs.State.{Bitmap, State, clear_bit, mark_used}

-- `e` is the lowest free block from `i` on.
pub record IsLowestFree (bm : Bitmap) (i e : ℕ) : Type 0 where
  pub above : i ≤ e
  pub bounded : e < block_num
  pub free : bm e ≡ true
  pub lowest : (k : ℕ) → i ≤ k → k < e → bm k ≡ false

abbrev pub NoneFree : Bitmap → ℕ → Type 0
NoneFree bm i = (k : ℕ) → i ≤ k → k < block_num → bm k ≡ false

-- What a search from `i` on answers.
abbrev pub Answers : Bitmap → ℕ → Run ℤ → Type 0
Answers bm i r =
    ((e : ℕ) × (r ≡ ok (pos e)) × IsLowestFree bm i e) ⊎ ((r ≡ ok (negsuc 0)) × NoneFree bm i)

first_free-Answers : (bm : Bitmap) (n i : ℕ) → i + n ≡ block_num → Answers bm i (first_free bm n i)
unfolding first_free
first_free-Answers bm zero i h = inr (refl, λ k a b. absurd (omega arith))
first_free-Answers bm (suc n) i h = elim (Bool-cases (bm i)) [
  | inl here ↦ inl (
    i,
    ground arith,
    record {
      above = omega arith;
      bounded = omega arith;
      free = here;
      lowest = λ k a b. absurd (omega arith);
    },
  )
  | inr taken ↦ elim (first_free-Answers bm n (i + 1) (omega arith)) [
    | inl (e, run, low) ↦ inl (
      e,
      ground (arith, run),
      record {
        above = omega (arith, low.above);
        bounded = low.bounded;
        free = low.free;
        lowest = λ k a b. elim (Bool-cases (k == i)) [
          | inl same ↦ ground arith
          | inr other ↦ low.lowest k (ground arith) b
        ];
      },
    )
    | inr (run, all) ↦ inr (
      ground (arith, run),
      λ k a b. elim (Bool-cases (k == i)) [
        | inl same ↦ ground arith
        | inr other ↦ all k (ground arith) b
      ],
    )
  ]
]

module _ {D : DiskApi} (s : State D) (bm : Bitmap) where
  -- On a mounted file system of 64 blocks `fs_find_empty_block` returns the lowest free block, and -1
  -- exactly when every block is taken; it does not fault.
  pub fs_find_empty_block-Answers :
      s.free_blocks ≡ some bm
      → s.meta_data.blocks ≡ block_num
      → Answers bm 0 (fs_find_empty_block s)
  unfolding fs_find_empty_block
  fs_find_empty_block-Answers mounted blocks =
      rw (mounted, blocks) (first_free-Answers bm 64 0 (omega arith))

count_free-zero : (n : ℕ) (bm : Bitmap) → ((k : ℕ) → k < n → bm k ≡ false) → count_free n bm ≡ 0
unfolding count_free
count_free-zero zero bm h = refl
count_free-zero (suc n) bm h = ground (arith, h n, count_free-zero n bm (λ k a. h k (omega arith)))

-- The bitmap with block `e` taken.
abbrev pub taken : ℕ → Bitmap → Bitmap
taken e bm i = if e == i then false else bm i

count_free_congr : (n e : ℕ) (bm : Bitmap) → n ≤ e → count_free n (taken e bm) ≡ count_free n bm
unfolding count_free
count_free_congr zero e bm h = refl
count_free_congr (suc n) e bm h = ground (arith, count_free_congr n e bm)

-- Taking a free block leaves one free block less.
pub count_free-taken :
    (n e : ℕ) (bm : Bitmap) → e < n → bm e ≡ true → count_free n (taken e bm) + 1 ≡ count_free n bm
unfolding count_free
count_free-taken zero e bm h free = absurd (omega arith)
count_free-taken (suc n) e bm h free = elim (Bool-cases (e == n)) [
  | inl last ↦ ground (arith, count_free_congr n e bm)
  | inr other ↦ ground (arith, count_free-taken n e bm)
]

module _ {D : DiskApi} (s : State D) (bm : Bitmap) (mounted : s.free_blocks ≡ some bm) where
  -- While a block is free the search succeeds.
  pub find-free :
      s.meta_data.blocks ≡ block_num
      → 0 < count_free block_num bm
      → (e : ℕ) × (fs_find_empty_block s ≡ ok (pos e)) × IsLowestFree bm 0 e
  find-free blocks some_free = elim (fs_find_empty_block-Answers s bm mounted blocks) [
    | inl found ↦ found
    | inr (_, all) ↦
        absurd (omega (arith, count_free-zero block_num bm (λ k a. all k (omega arith) a)))
  ]

  pub find-none :
      s.meta_data.blocks ≡ block_num → NoneFree bm 0 → fs_find_empty_block s ≡ ok (negsuc 0)
  find-none blocks full = elim (fs_find_empty_block-Answers s bm mounted blocks) [
    | inl (e, _, low) ↦ cc (low.free, full e low.above low.bounded)
    | inr (run, _) ↦ run
  ]

  pub mark_used_lem :
      (e : ℕ) → e < block_num → mark_used s e ≡ ok (record s { free_blocks = some (taken e bm) })
  unfolding mark_used clear_bit
  mark_used_lem e h = rw mounted (ground arith)
