-- ===== src/Fs/Write/Pointers.antt =====
-- `find_first` and `direct_pointers_len`.
use bit_computer.Common.{
  Bool-cases, Bytes, ap, arith, dec_lt, false, inl, inr, negsuc, pos, refl, suc, true, zero, ℕ, ℤ,
  ◌+◌, ◌<◌, ◌==◌, ◌∙◌, ◌≡◌, ◌≢◌, ◌≤◌, ◌⊎◌,
}
use bit_computer.Fs.Layout.{direct, pointers_per_inode}
use bit_computer.Fs.Write.{direct_pointers_len, find_first, find_first_loop}

-- What `find_first` answers: the first place of `to_find`, or -1 if it does not occur.
abbrev Finds : (ℕ → ℕ) → ℕ → ℕ → ℤ → Type 0
Finds nums length to_find r =
    ((x : ℕ) × (r ≡ pos x)
      × (x < length)
      × (nums x ≡ to_find)
      × ((k : ℕ) → k < x → nums k ≢ to_find))
    ⊎ ((r ≡ negsuc 0) × ((k : ℕ) → k < length → nums k ≢ to_find))

module _ (nums : ℕ → ℕ) (to_find : ℕ) where
  loop_found : (n i : ℕ) → find_first_loop n nums to_find i true ≡ (i, true)
  unfolding find_first_loop
  loop_found zero i = refl
  loop_found (suc n) i = refl

  loop_lem :
      (n i : ℕ)
      → ((x : ℕ) × (find_first_loop n nums to_find i false ≡ (x + 1, true))
          × (i ≤ x)
          × (x < i + n)
          × (nums x ≡ to_find)
          × ((k : ℕ) → i ≤ k → k < x → nums k ≢ to_find))
        ⊎ ((find_first_loop n nums to_find i false ≡ (i + n, false))
            × ((k : ℕ) → i ≤ k → k < i + n → nums k ≢ to_find))
  unfolding find_first_loop
  loop_lem zero i = inr (ap (λ k. (k, false)) (omega arith), λ k a b. absurd (omega arith))
  loop_lem (suc n) i = elim (Bool-cases (nums i == to_find)) [
    | inl here ↦ inl (
      i,
      rw here (loop_found n (i + 1)),
      omega arith,
      omega arith,
      ground arith,
      λ k a b. absurd (omega arith),
    )
    | inr other ↦ rw other (elim (loop_lem n (i + 1)) [
      | inl (x, run, a, b, e, before) ↦ inl (
        x,
        run,
        omega arith,
        omega arith,
        e,
        λ k p q. elim (Bool-cases (k == i)) [
          | inl same ↦ ground arith
          | inr away ↦ before k (ground arith) q
        ],
      )
      | inr (run, all) ↦ inr (
        run ∙ ap (λ k. (k, false)) (omega arith),
        λ k p q. elim (Bool-cases (k == i)) [
          | inl same ↦ ground arith
          | inr away ↦ all k (ground arith) (omega arith)
        ],
      )
    ])
  ]

  -- `find_first` returns the index of the first element equal to `to_find`, and -1 exactly when there
  -- is none.
  find_first-Finds : (length : ℕ) → Finds nums length to_find (find_first nums length to_find)
  unfolding find_first
  find_first-Finds length = elim (loop_lem length 0) [
    | inl (x, run, a, b, e, before) ↦
        inl (x, rw run (ap pos (omega arith)), omega arith, e, λ k h. before k (omega arith) h)
    | inr (run, all) ↦ inr (rw run, λ k h. all k (omega arith) (omega arith))
  ]

-- `direct_pointers_len` is the number of pointers before the first null one.
pub record IsLength (b : Bytes) (j n : ℕ) : Type 0 where
  pub bounded : n ≤ pointers_per_inode
  pub pointer_before : (l : ℕ) → l < n → direct b j l ≢ 0
  pub null_at : n < pointers_per_inode → direct b j n ≡ 0

-- `direct_pointers_len` is at most 5, the pointers before it are not null, and the pointer at it, if
-- there is one, is null.
pub direct_pointers_len-IsLength : (b : Bytes) (j : ℕ) → IsLength b j (direct_pointers_len b j)
unfolding direct_pointers_len
direct_pointers_len-IsLength b j = elim (find_first-Finds (direct b j) 0 pointers_per_inode) [
  | inl (x, run, h, e, before) ↦
      rw (run, direct_pointers_len)
        (record { bounded = omega arith; pointer_before = before; null_at = λ _. e })
  | inr (run, all) ↦
      rw (run, direct_pointers_len)
        (record {
          bounded = omega arith;
          pointer_before = all;
          null_at = λ h. absurd (omega arith);
        })
]

-- The length is determined.
IsLength-unique : (b : Bytes) (j m n : ℕ) → IsLength b j m → IsLength b j n → m ≡ n
IsLength-unique b j m n p q = elim (dec_lt m n) [
  | yes h ↦ absurd (q.pointer_before m h (p.null_at (omega (arith, q.bounded))))
  | no h ↦ elim (dec_lt n m) [
    | yes h' ↦ absurd (p.pointer_before n h' (q.null_at (omega (arith, p.bounded))))
    | no h' ↦ omega arith
  ]
]
