-- ===== src/Common/Memory.antt =====
-- Memory regions as functions from an offset to the byte there, with little-endian words.
use Prim.Native.Nat.{ℕ, zero, suc, ◌+◌, ◌-◌, ◌*◌, ◌/◌, ◌%◌, ◌^◌, ◌≤◌, ◌<◌}
use mathlib.Core.Path.{◌≡◌, refl, ap, ap₂, ◌∙◌}
use mathlib.Core.Bool.{◌&&◌}
use mathlib.Core.List.{List, [], ◌∷◌, ◌++◌}
use native.Mathlib.Omega.{arith}
use bit_computer.Common.Tests.{ltb, leb, ◌==◌, if◌then◌else◌}

abbrev pub Bytes : Type 0
Bytes = ℕ → ℕ

abbrev pub zeros : Bytes
zeros k = 0

-- `m[i] = v`
abbrev pub poke : Bytes → ℕ → ℕ → Bytes
poke m i v k = if i == k then v else m k

-- `memcpy(m + at, src, n)`
abbrev pub memcpy : Bytes → ℕ → Bytes → ℕ → Bytes
memcpy m at src n k = if leb at k && ltb k (at + n) then src (k - at) else m k

-- The bytes of a list, then zeros.
unfoldable pub from_list : List ℕ → Bytes
from_list [] k = 0
from_list (c ∷ cs) zero = c
from_list (c ∷ cs) (suc k) = from_list cs k

unfoldable pub length {ℓ} : {A : Type ℓ} → List A → ℕ
length [] = 0
length (x ∷ xs) = suc (length xs)

-- The first `n` bytes of `m` from `i` on.
unfoldable pub bytes_of : ℕ → ℕ → Bytes → List ℕ
bytes_of zero i m = []
bytes_of (suc n) i m = m i ∷ bytes_of n (i + 1) m

pub length-bytes_of : (n i : ℕ) (m : Bytes) → length (bytes_of n i m) ≡ n
unfolding length bytes_of
length-bytes_of zero i m = refl
length-bytes_of (suc n) i m = ap suc (length-bytes_of n (i + 1) m)

pub from_list-bytes_of :
    (n i k : ℕ) (m : Bytes) → from_list (bytes_of n i m) k ≡ (if ltb k n then m (i + k) else 0)
unfolding from_list bytes_of
from_list-bytes_of zero i k m = ground arith
from_list-bytes_of (suc n) i zero m = ground arith
from_list-bytes_of (suc n) i (suc k) m = from_list-bytes_of n (i + 1) k m ∙ ground arith

pub bytes_of-congr :
    (n i j : ℕ) (a b : Bytes)
    → ((k : ℕ) → k < n → a (i + k) ≡ b (j + k))
    → bytes_of n i a ≡ bytes_of n j b
unfolding bytes_of
bytes_of-congr zero i j a b h = refl
bytes_of-congr (suc n) i j a b h =
    ap₂ (λ x l. x ∷ l) (ap a (omega arith) ∙ h 0 (omega arith) ∙ ap b (omega arith))
      (bytes_of-congr n (i + 1) (j + 1) a b
        (λ k lt. ap a (omega arith) ∙ h (k + 1) (omega arith) ∙ ap b (omega arith)))

-- A byte more at the end.
pub bytes_of-suc : (n i : ℕ) (m : Bytes) → bytes_of (suc n) i m ≡ bytes_of n i m ++ (m (i + n) ∷ [])
unfolding bytes_of
bytes_of-suc zero i m = ap (λ k. m k ∷ []) (omega arith)
bytes_of-suc (suc n) i m =
    ap (λ l. m i ∷ l)
      (bytes_of-suc n (i + 1) m ∙ ap (λ k. bytes_of n (i + 1) m ++ (m k ∷ [])) (omega arith))

-- the `uint32_t` at offset `at`
unfoldable pub get_u32 : Bytes → ℕ → ℕ
get_u32 m at = m at + 256 * m (at + 1) + 65536 * m (at + 2) + 16777216 * m (at + 3)

unfoldable pub set_u32 : Bytes → ℕ → ℕ → Bytes
set_u32 m at v k =
    if k == at
    then v % 256
    else if k == at + 1
    then v / 256 % 256
    else if k == at + 2
    then v / 65536 % 256
    else if k == at + 3
    then v / 16777216 % 256
    else m k

pub get_u32-set_u32_self : (m : Bytes) (at v : ℕ) → v < 2 ^ 32 → get_u32 (set_u32 m at v) at ≡ v
unfolding get_u32 set_u32
get_u32-set_u32_self m at v h = ground arith

-- Other bytes are left alone. The premise says that the word and the byte are apart.
set_u32_outside : (m : Bytes) (at v k : ℕ) → (at ≤ k → at + 4 ≤ k) → set_u32 m at v k ≡ m k
unfolding set_u32
set_u32_outside m at v k h = ground (arith, h)

pub get_u32_congr :
    (m n : Bytes) (at : ℕ)
    → m at ≡ n at
    → m (at + 1) ≡ n (at + 1)
    → m (at + 2) ≡ n (at + 2)
    → m (at + 3) ≡ n (at + 3)
    → get_u32 m at ≡ get_u32 n at
unfolding get_u32
get_u32_congr m n at a b c d = omega arith

pub get_u32-set_u32_ne :
    (m : Bytes) (at v p : ℕ) → (at < p + 4 → at + 4 ≤ p) → get_u32 (set_u32 m at v) p ≡ get_u32 m p
get_u32-set_u32_ne m at v p h =
    get_u32_congr _ _ p (set_u32_outside m at v p (omega (arith, h)))
      (set_u32_outside m at v (p + 1) (omega (arith, h)))
      (set_u32_outside m at v (p + 2) (omega (arith, h)))
      (set_u32_outside m at v (p + 3) (omega (arith, h)))

pub get_u32-poke :
    (m : Bytes) (i v p : ℕ) → (i < p + 4 → i < p) → get_u32 (poke m i v) p ≡ get_u32 m p
get_u32-poke m i v p h =
    get_u32_congr _ _ p (ground (arith, h)) (ground (arith, h)) (ground (arith, h))
      (ground (arith, h))
