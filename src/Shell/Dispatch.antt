-- ===== src/Shell/Dispatch.antt =====
-- The commands of the shell.
use bit_computer.Common.{
  Bool, Bytes, List, [], arith, false, fault, from_list, indeterminate, inl, inr, is_zero, not, ok,
  refl, suc, true, zero, ℕ, ℤ, ◌&&◌, ◌<◌, ◌==◌, ◌∷◌, ◌≡◌, ◌≢◌, ◌⊎◌,
}
use bit_computer.Shell.{Command, commands, dispatch, dispatch_among, my_strncmp, not_found}
use bit_computer.Shell.Compare.{Agree, my_strncmp-Compares}

-- `count` characters, none of them null.
abbrev is_word : List ℕ → ℕ → Bool
is_word [] zero = true
is_word [] (suc n) = false
is_word (c ∷ cs) zero = true
is_word (c ∷ cs) (suc n) = not (c == 0) && is_word cs n

word_char : (w : List ℕ) (n k : ℕ) → is_word w n ≡ true → k < n → from_list w k ≢ 0
unfolding from_list
word_char w zero k h lt = absurd (omega arith)
word_char [] (suc n) k h lt = absurd (ground (arith, h))
word_char (c ∷ cs) (suc n) zero h lt = ground (arith, h)
word_char (c ∷ cs) (suc n) (suc k) h lt = word_char cs n k (ground (arith, h)) (omega arith)

abbrev all_words : List (List ℕ × ℕ × Command) → Bool
all_words [] = true
all_words ((w, n, _) ∷ rest) = is_word w n && all_words rest

-- The line begins with one of the words.
abbrev pub StartsWithOne : List (List ℕ × ℕ × Command) → Bytes → Type 0
StartsWithOne [] buff = ⊥
StartsWithOne ((w, n, _) ∷ rest) buff = Agree buff (from_list w) 0 n ⊎ StartsWithOne rest buff

-- A comparison with a word has no value if the line begins with it, and is not 0 otherwise.
my_strncmp-word :
    (buff : Bytes) (w : List ℕ) (n : ℕ)
    → is_word w n ≡ true
    → ((my_strncmp buff (from_list w) n ≡ fault indeterminate) × Agree buff (from_list w) 0 n)
      ⊎ ((r : ℤ) × (my_strncmp buff (from_list w) n ≡ ok r)
          × (is_zero r ≡ false)
          × ¬ Agree buff (from_list w) 0 n)
my_strncmp-word buff w n h = elim (my_strncmp-Compares buff (from_list w) n) [
  | inl same ↦ inl same
  | inr (k, lo, hi, same, outcome) ↦ inr (elim outcome [
    | inl (run, e, e') ↦ absurd (word_char w n k h (omega arith) e')
    | inr (inl (e, run, gt)) ↦
        (_, run, ground arith, λ all. absurd (ground (arith, all k lo hi, gt)))
    | inr (inr (e, run, lt)) ↦ (_, run, refl, λ all. absurd (ground (arith, all k lo hi, lt)))
  ])
]

dispatch_among-Answers :
    (ws : List (List ℕ × ℕ × Command)) (buff : Bytes)
    → all_words ws ≡ true
    → ((dispatch_among ws buff ≡ fault indeterminate) × StartsWithOne ws buff)
      ⊎ ((dispatch_among ws buff ≡ ok not_found) × ¬ StartsWithOne ws buff)
unfolding dispatch_among
dispatch_among-Answers [] buff h = inr (refl, λ never. never)
dispatch_among-Answers ((w, n, cmd) ∷ rest) buff h =
    elim (my_strncmp-word buff w n (ground (arith, h))) [
      | inl (run, same) ↦ inl (rw run refl, inl same)
      | inr (r, run, other, away) ↦ elim (dispatch_among-Answers rest buff (ground (arith, h))) [
        | inl (run', one) ↦ inl (rw (run, dispatch_among) (rw other run'), inr one)
        | inr (run', neither) ↦ inr (
          rw (run, dispatch_among) (rw other run'),
          λ one. elim one [ inl same ↦ away same | inr later ↦ neither later ],
        )
      ]
    ]

-- No line runs a command by a comparison that has a value: on a line that begins with one of the words
-- the result of a comparison that ended with no `return` is used, and every other line is not found.
pub dispatch-Answers :
    (buff : Bytes)
    → ((dispatch buff ≡ fault indeterminate) × StartsWithOne commands buff)
      ⊎ ((dispatch buff ≡ ok not_found) × ¬ StartsWithOne commands buff)
unfolding dispatch
dispatch-Answers buff = dispatch_among-Answers commands buff refl
