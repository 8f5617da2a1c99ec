-- ===== src/Sim/Main/Peek.antt =====
-- `peek` with an address.
use Prim.Native.Nat.{min as least}
use bit_computer.Common.{
  Bytes, List, [], from_list, if◌then◌else◌, ltb, ℕ, ◌%◌, ◌*◌, ◌++◌, ◌+◌, ◌-◌, ◌<◌, ◌^◌, ◌∷◌,
}
use bit_computer.Sim.Emulators.{Emulators}
use bit_computer.Sim.Main.{Sim}

-- A digit as it is typed, in lower case.
abbrev digit_char : ℕ → ℕ
digit_char d = if ltb d 10 then 48 + d else 87 + d

unfoldable pub digit_chars : List ℕ → List ℕ
digit_chars [] = []
digit_chars (d ∷ ds) = digit_char d ∷ digit_chars ds

-- The value of the digits after those of the value `value`.
unfoldable pub positional : ℕ → ℕ → List ℕ → ℕ
positional base value [] = value
positional base value (d ∷ ds) = positional base (value * base + d) ds

abbrev AreHex : List ℕ → Type 0
AreHex [] = Unit
AreHex (d ∷ ds) = (d < 16) × AreHex ds

-- The address that the digits ask for: the low 16 bits of their number, or of the greatest `unsigned long` if that is less.
abbrev address_of : ℕ → List ℕ → ℕ
address_of d ds = least (positional 16 d ds) (2 ^ 64 - 1) % 2 ^ 16

-- A line with `peek`, a space, an address of at least one digit, and a newline.
abbrev pub address_text : ℕ → List ℕ → List ℕ
address_text d ds = b' ' ∷ digit_char d ∷ (digit_chars ds ++ (b'\n' ∷ []))

abbrev pub peek_line : ℕ → List ℕ → Bytes
peek_line d ds = from_list (b'p' ∷ b'e' ∷ b'e' ∷ b'k' ∷ address_text d ds)
