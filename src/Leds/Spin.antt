-- ===== src/Leds/Spin.antt =====
-- leds_in_c/main_memory_mapped.c and main_fast_call_with_param.c: how long `spin` takes, and which LEDs light up.
use bit_computer.Common.{
  List, [], ap, ap₂, arith, dec_lt, if◌then◌else◌, le→ltb, ltb, lt→ltb, suc, zero, ℕ, ◌%◌, ◌*◌, ◌+◌,
  ◌-◌, ◌^◌, ◌∙◌, ◌∷◌, ◌≡◌, ◌≤◌,
}

-- The variables of `spin`, with the number of rounds of the inner loops.
pub record Counters : Type 0 where
  pub i : ℕ
  pub j : ℕ
  pub rounds : ℕ

-- `while (j < limit) j++`; the source has 255. At most `n` rounds.
unfoldable pub spin_inner : ℕ → ℕ → Counters → Counters
spin_inner zero limit c = c
spin_inner (suc n) limit c =
    let rest = spin_inner n limit (record c { j = c.j + 1; rounds = c.rounds + 1 }) in
    if ltb c.j limit then rest else c

-- The outer loop.
unfoldable spin_outer : ℕ → ℕ → Counters → Counters
spin_outer zero limit c = c
spin_outer (suc n) limit c =
    let rest = spin_outer n limit (spin_inner limit limit (record c { i = c.i + 1 })) in
    if ltb c.i limit then rest else c

-- The two halves of `spin`.
unfoldable pub spin : ℕ → Counters
unfolding spin_outer
spin limit =
    let first = spin_outer limit limit (record { i = 0; j = 0; rounds = 0 }) in
    spin_outer limit limit (record first { i = 0; j = 0 })

spin_inner-rounds :
    (n limit i j rounds : ℕ)
    → limit ≤ j + n
    → j ≤ limit
    → spin_inner n limit (record { i = i; j = j; rounds = rounds })
      ≡ record { i = i; j = limit; rounds = rounds + (limit - j) }
unfolding spin_inner
spin_inner-rounds zero limit i j rounds h h' =
    ap₂ (λ x y. record { i = i; j = x; rounds = y }) (omega arith) (omega arith)
spin_inner-rounds (suc n) limit i j rounds h h' = elim (dec_lt j limit) [
  | yes more ↦ rw (lt→ltb j limit more) (
      spin_inner-rounds n limit i (j + 1) (rounds + 1) (omega arith) (omega arith)
      ∙ ap (λ y. record { i = i; j = limit; rounds = y }) (omega arith))
  | no over ↦
      rw (le→ltb j limit (omega arith))
        (ap₂ (λ x y. record { i = i; j = x; rounds = y }) (omega arith) (omega arith))
]

spin_outer-done :
    (n limit i rounds : ℕ)
    → limit ≤ i + n
    → i ≤ limit
    → spin_outer n limit (record { i = i; j = limit; rounds = rounds })
      ≡ record { i = limit; j = limit; rounds = rounds }
unfolding spin_outer
spin_outer-done zero limit i rounds h h' =
    ap (λ x. record { i = x; j = limit; rounds = rounds }) (omega arith)
spin_outer-done (suc n) limit i rounds h h' = elim (dec_lt i limit) [
  | yes more ↦ rw (lt→ltb i limit more) (
      ap (spin_outer n limit)
        (spin_inner-rounds limit limit (i + 1) limit rounds (omega arith) (omega arith))
      ∙ ap (λ y. spin_outer n limit (record { i = i + 1; j = limit; rounds = y })) (omega arith)
      ∙ spin_outer-done n limit (i + 1) rounds (omega arith) (omega arith))
  | no over ↦
      rw (le→ltb i limit (omega arith))
        (ap (λ x. record { i = x; j = limit; rounds = rounds }) (omega arith))
]

-- Half of `spin`: the inner loop runs once only, since its variable is not reset.
spin_outer-half :
    (limit rounds : ℕ)
    → spin_outer limit limit (record { i = 0; j = 0; rounds = rounds })
      ≡ record { i = limit; j = limit; rounds = rounds + limit }
unfolding spin_outer
spin_outer-half zero rounds = ap (λ y. record { i = 0; j = 0; rounds = y }) (omega arith)
spin_outer-half (suc n) rounds = rw (lt→ltb 0 (suc n) (omega arith)) (
    ap (spin_outer n (suc n))
      (spin_inner-rounds (suc n) (suc n) (0 + 1) 0 rounds (omega arith) (omega arith))
    ∙ ap (λ x. spin_outer n (suc n) (record { i = x; j = suc n; rounds = rounds + (suc n - 0) }))
        (omega arith)
    ∙ spin_outer-done n (suc n) 1 (rounds + (suc n - 0)) (omega arith) (omega arith)
    ∙ ap (λ y. record { i = suc n; j = suc n; rounds = y }) (omega arith))

-- The nested loops of `spin`, with any limit, make as many rounds of the inner loop as the limit says in each
-- half, and not its square: they end with both variables at the limit.
pub spin-rounds : (limit : ℕ) → spin limit ≡ record { i = limit; j = limit; rounds = 2 * limit }
unfolding spin
spin-rounds limit =
    ap (λ c. spin_outer limit limit (record c { i = 0; j = 0 })) (spin_outer-half limit 0)
    ∙ spin_outer-half limit (0 + limit)
    ∙ ap (λ y. record { i = limit; j = limit; rounds = y }) (omega arith)

-- The loop of `pow`, whose product has 8 bits.
unfoldable pub pow_loop : ℕ → ℕ → ℕ → ℕ
pow_loop zero x number = number
pow_loop (suc n) x number = pow_loop n x (number * x % 2 ^ 8)

unfoldable pub pow : ℕ → ℕ → ℕ
unfolding pow_loop
pow x n = pow_loop n x 1

-- What the loop over the LEDs gives to `led`, from LED `i` on.
unfoldable pub sweep : ℕ → ℕ → List ℕ
unfolding pow
sweep zero i = []
sweep (suc n) i = pow 2 i ∷ sweep n (i + 1)
