-- ===== src/Common/Outcome.antt =====
-- The outcome of C code: a value, or a fault where the language leaves the behaviour undefined;
-- 16-bit signed results; counted loops over a state with their invariant rule.
use Prim.Native.Nat.{ℕ, zero, suc, ◌+◌, ◌-◌, ◌%◌, ◌^◌, ◌≤◌, ◌<◌}
use mathlib.Core.Path.{◌≡◌, refl, ap}
use native.Mathlib.Omega.{arith}
use mathlib.Core.Bool.{Bool, false}
use bit_computer.Common.Tests.{ltb, ◌==◌, if◌then◌else◌}

-- An access out of an array's bounds, a use of a null pointer, a use of a variable that has no value,
-- the end of the program by `exit` or a panic; the last one is not the code's: it says that the rounds
-- granted to a `while` loop were too few.
pub data Fault : Type 0 where
  out_of_bounds null_pointer indeterminate exited out_of_fuel : Fault

pub data Run {ℓ} (A : Type ℓ) : Type ℓ where
  fault : Fault → Run A
  ok : A → Run A

pub ok-injective {ℓ} : {A : Type ℓ} (a b : A) → Path (Run A) (ok a) (ok b) → a ≡ b
ok-injective a b h = ap (λ r. elim r [ ok x ↦ x | fault e ↦ a ]) h

-- The next step is done only after a step that has ended well.
infixl 5 ◌>>=◌
abbrev pub ◌>>=◌ {ι κ} : {S : Type ι} {T : Type κ} → Run S → (S → Run T) → Run T
fault why >>= next = fault why
ok value >>= next = next value

-- A chain of two steps that ends well.
pub bind-ok {ℓ κ} :
    {A : Type ℓ} {B : Type κ} (r : Run A) (f : A → Run B) (b : B)
    → (r >>= f) ≡ ok b
    → (a : A) × (r ≡ ok a) × (f a ≡ ok b)
bind-ok (ok a) f b h = (a, refl, h)
bind-ok (fault e) f b h = absurd (ground (arith, h))

pub bind_ok {ℓ} : {A : Type ℓ} (r : Run A) (f : A → Run A) → ((a : A) → f a ≡ ok a) → (r >>= f) ≡ r
bind_ok (ok a) f h = h a
bind_ok (fault e) f h = refl

-- The code ends with no fault, in a value that satisfies `P`.
abbrev pub Returns {ι κ} : {S : Type ι} → Run S → (S → Type κ) → Type (ι ⊔ κ)
Returns {S} run Holds = (value : S) × (run ≡ ok value) × Holds value

-- `negsuc n` is -(n + 1).
pub data ℤ : Type 0 where
  pos : ℕ → ℤ
  negsuc : ℕ → ℤ

abbrev pub is_zero : ℤ → Bool
is_zero (pos n) = n == 0
is_zero (negsuc n) = false

-- The conversion of an unsigned value to cc65's 16-bit `int`.
unfoldable pub to_int : ℕ → ℤ
to_int x = let y = x % 2 ^ 16 in if ltb y (2 ^ 15) then pos y else negsuc (2 ^ 16 - 1 - y)

-- The conversion back to a 16-bit `size_t`.
unfoldable pub to_size : ℤ → ℕ
to_size (pos n) = n
to_size (negsuc n) = 2 ^ 16 - 1 - n

pub to_int-small : (x : ℕ) → x < 2 ^ 15 → to_int x ≡ pos x
unfolding to_int
to_int-small x h = ground arith

-- `for (k = i; k < i + n; k++) s = body k s`, stopped by a fault.
unfoldable pub for_range {ℓ} : {S : Type ℓ} → ℕ → ℕ → (ℕ → S → Run S) → S → Run S
for_range zero i body s = ok s
for_range (suc n) i body s = body i s >>= for_range n (i + 1) body

pub for_range_inv {ℓ κ} :
    {S : Type ℓ} (P : ℕ → S → Type κ) (body : ℕ → S → Run S) (n i j : ℕ) (s : S)
    → i + n ≡ j
    → ((k : ℕ) (t : S) → i ≤ k → k < j → P k t → Returns (body k t) (P (k + 1)))
    → P i s
    → Returns (for_range n i body s) (P j)
unfolding for_range
for_range_inv P body zero i j s e keep h = (s, refl, (let e' : i ≡ j = omega arith in rw (← e') h))
for_range_inv P body (suc n) i j s e keep h =
    let (t, run, p) = keep i s (omega arith) (omega arith) h in
    rw run
      (for_range_inv P body n (i + 1) j t (omega arith) (λ k u a b q. keep k u (omega arith) b q) p)
