-- ===== src/Leds/Counter.antt =====
-- lcd_in_c/main_lcd.c: the counter on the display, with a clock of 32 bits.
use bit_computer.Common.{
  Bool, Bool-cases, List, [], ap, arith, if◌then◌else◌, inl, inr, length, ltb, refl, suc, to_int,
  zero, ℕ, ℤ, ◌%◌, ◌++◌, ◌+◌, ◌-◌, ◌<◌, ◌^◌, ◌∷◌, ◌≡◌, ◌≤◌,
}
use bit_computer.Server.Tokens.Packet.{waiting}

-- The variables, and the numbers that have been shown.
pub record Counter : Type 0 where
  pub lastcalled : ℕ
  pub time : ℕ
  pub shown : List ℤ

abbrev new_counter : Counter
new_counter = record { lastcalled = 0; time = 0; shown = [] }

-- `delay` when `millis` has answered `now`: whether more than 100 ms have passed. The difference has 32 bits.
unfoldable has_passed : ℕ → ℕ → Bool
has_passed now lastcalled = ltb 100 ((now + 2 ^ 32 - lastcalled) % 2 ^ 32)

-- A round of the loop in `main`. `itoa` takes an `int` of 16 bits.
unfoldable count_round : ℕ → Counter → Counter
count_round now c =
    let time = (c.time + 1) % 2 ^ 32 in
    if has_passed now c.lastcalled
    then record { lastcalled = now; time = time; shown = c.shown ++ (to_int time ∷ []) }
    else c

-- The rounds in which `millis` answers so.
unfoldable count_all : List ℕ → Counter → Counter
count_all [] c = c
count_all (now ∷ later) c = count_all later (count_round now c)

-- The numbers from 1 to `n`, as the display shows them.
unfoldable shown_numbers : ℕ → List ℤ
shown_numbers zero = []
shown_numbers (suc n) = shown_numbers n ++ (to_int (suc n) ∷ [])

count_round-shown_numbers :
    (now : ℕ) (c : Counter)
    → c.time + 1 < 2 ^ 32
    → c.shown ≡ shown_numbers c.time
    → ((count_round now c).shown ≡ shown_numbers (count_round now c).time)
      × ((count_round now c).time ≤ c.time + 1)
unfolding count_round shown_numbers
count_round-shown_numbers now c small same = elim (Bool-cases (has_passed now c.lastcalled)) [
  | inl passed ↦
      let next : (c.time + 1) % 2 ^ 32 ≡ suc c.time = omega arith in
      (
        rw (passed, next) (ap (λ l. l ++ (to_int (suc c.time) ∷ [])) same),
        rw (passed, next) (omega arith),
      )
  | inr waiting ↦ (rw waiting same, rw waiting (omega arith))
]

count_all-shown_numbers :
    (nows : List ℕ) (c : Counter)
    → c.time + length nows < 2 ^ 32
    → c.shown ≡ shown_numbers c.time
    → (count_all nows c).shown ≡ shown_numbers (count_all nows c).time
unfolding count_all length
count_all-shown_numbers [] c small same = same
count_all-shown_numbers (now ∷ later) c small same =
    let (shown, step) = count_round-shown_numbers now c (omega arith) same in
    count_all-shown_numbers later (count_round now c) (omega arith) shown

-- In fewer than 2^32 rounds, whatever the clock says, the display shows the numbers from 1 on in their order, each
-- cut to a 16-bit `int`.
count_all-shown :
    (nows : List ℕ)
    → length nows < 2 ^ 32
    → (count_all nows new_counter).shown ≡ shown_numbers (count_all nows new_counter).time
unfolding shown_numbers
count_all-shown nows small = count_all-shown_numbers nows new_counter (omega arith) refl
