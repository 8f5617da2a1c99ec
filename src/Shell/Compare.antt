-- ===== src/Shell/Compare.antt =====
-- `my_strncmp`.
use bit_computer.Common.{
  Bytes, Run, arith, dec_lt, fault, if◌then◌else◌, indeterminate, inl, inr, negsuc, ok, pos, refl,
  subst, suc, zero, ℕ, ℤ, ◌+◌, ◌-◌, ◌<◌, ◌==◌, ◌∙◌, ◌≡◌, ◌≢◌, ◌≤◌, ◌⊎◌,
}
use bit_computer.Shell.{my_strncmp, strncmp_loop}

-- Up to index `n` the strings agree and have not ended.
abbrev pub Agree : Bytes → Bytes → ℕ → ℕ → Type 0
Agree s t i n = (k : ℕ) → i ≤ k → k < i + n → (s k ≡ t k) × (s k ≢ 0)

-- What the comparison of two strings answers: no value exactly if the rounds are used up, otherwise the
-- sign of the first difference.
abbrev Compares : Bytes → Bytes → ℕ → ℕ → Run ℤ → Type 0
Compares s t i n r =
    ((r ≡ fault indeterminate) × Agree s t i n)
    ⊎ ((k : ℕ) × (i ≤ k)
        × (k < i + n)
        × Agree s t i (k - i)
        × (((r ≡ ok (pos 0)) × (s k ≡ 0) × (t k ≡ 0))
            ⊎ ((e : ℕ) × (r ≡ ok (pos (e + 1))) × (t k < s k))
            ⊎ ((e : ℕ) × (r ≡ ok (negsuc e)) × (s k < t k))))

module _ (n i : ℕ) (s t : Bytes) where
  less :
      s i < t i → strncmp_loop (suc n) i s t ≡ ok (negsuc (if s i == 0 then 0 else t i - s i - 1))
  unfolding strncmp_loop
  less h = ground arith

  greater :
      t i < s i
      → strncmp_loop (suc n) i s t ≡ ok (pos ((if t i == 0 then 0 else s i - t i - 1) + 1))
  unfolding strncmp_loop
  greater h = ground arith

  both_end : s i ≡ 0 → t i ≡ 0 → strncmp_loop (suc n) i s t ≡ ok (pos 0)
  unfolding strncmp_loop
  both_end h h' = ground arith

  go_on : s i ≡ t i → s i ≢ 0 → strncmp_loop (suc n) i s t ≡ strncmp_loop n (i + 1) s t
  unfolding strncmp_loop
  go_on h ne = ground arith

  -- An index more at the front.
  Agree-suc : (m : ℕ) → s i ≡ t i → s i ≢ 0 → Agree s t (i + 1) m → Agree s t i (suc m)
  Agree-suc m e ne rest k lo hi = elim (dec_lt i k) [
    | yes later ↦ rest k (omega arith) (omega arith)
    | no first ↦ (let here : k ≡ i = omega arith in rw here (e, ne))
  ]

nothing : (s t : Bytes) (i : ℕ) → Agree s t i (i - i)
nothing s t i k lo hi = absurd (omega arith)

strncmp_loop-Compares : (n i : ℕ) (s t : Bytes) → Compares s t i n (strncmp_loop n i s t)
unfolding strncmp_loop
strncmp_loop-Compares zero i s t = inl (refl, λ k a b. absurd (omega arith))
strncmp_loop-Compares (suc n) i s t = elim (dec_lt (s i) (t i)) [
  | yes lt ↦ inr (i, omega arith, omega arith, nothing s t i, inr (inr (_, less n i s t lt, lt)))
  | no nlt ↦ elim (dec_lt (t i) (s i)) [
    | yes gt ↦
        inr (i, omega arith, omega arith, nothing s t i, inr (inl (_, greater n i s t gt, gt)))
    | no ngt ↦
        let e : s i ≡ t i = omega arith in
        elim (dec_lt 0 (s i)) [
          | no null ↦
              let z : s i ≡ 0 = omega arith in
              let z' : t i ≡ 0 = omega arith in
              inr (i, omega arith, omega arith, nothing s t i, inl (both_end n i s t z z', z, z'))
          | yes more ↦
              let ne : s i ≢ 0 = λ z. absurd (omega arith) in
              elim (strncmp_loop-Compares n (i + 1) s t) [
                | inl (run, same) ↦ inl (go_on n i s t e ne ∙ run, Agree-suc n i s t n e ne same)
                | inr (k, lo, hi, same, outcome) ↦ inr (
                  k,
                  omega arith,
                  omega arith,
                  subst (λ m. Agree s t i m) (omega arith)
                      (Agree-suc n i s t (k - (i + 1)) e ne same),
                  rw (go_on n i s t e ne) outcome,
                )
              ]
        ]
  ]
]

-- `my_strncmp` answers 0, a positive or a negative number by the first place where the strings end or
-- differ, as `strncmp` does; but if the first `count` characters agree and none is null, it answers no
-- value at all.
pub my_strncmp-Compares : (s t : Bytes) (count : ℕ) → Compares s t 0 count (my_strncmp s t count)
unfolding my_strncmp
my_strncmp-Compares s t count = strncmp_loop-Compares count 0 s t
