-- ===== src/Common/Scan.antt =====
-- What `sscanf` does with a number: the bytes of a string are read one by one, and a string with no null in
-- its array is read past the array's end.
use Prim.Native.Nat.{min as least, ℕ, ◌+◌, ◌-◌, ◌*◌, ◌%◌, ◌^◌}
use mathlib.Core.Bool.{Bool, true, false, ◌&&◌, ◌||◌}
use mathlib.Core.Option.{Option, none, some}
use mathlib.Core.List.{List, [], ◌∷◌}
use bit_computer.Common.Tests.{ltb, leb, ◌==◌, if◌then◌else◌}
use bit_computer.Common.Memory.{Bytes}
use bit_computer.Common.Outcome.{Run, ok, fault, out_of_bounds, ◌>>=◌}

-- `strncmp(text, word, strlen(word)) == 0` from index `i` on.
unfoldable pub starts_with : List ℕ → ℕ → Bytes → Bool
starts_with [] i text = true
starts_with (c ∷ cs) i text = (text i == c) && starts_with cs (i + 1) text

-- `isspace`
abbrev pub is_space : ℕ → Bool
is_space c = (c == b' ') || (leb 9 c && leb c 13)

-- The value of a digit, if the character is one in the base.
abbrev pub digit : ℕ → ℕ → Option ℕ
digit base c =
    let d =
      if leb b'0' c && leb c b'9'
      then c - b'0'
      else if leb b'a' c && leb c b'f'
      then c - 87
      else if leb b'A' c && leb c b'F'
      then c - 55
      else 16 in
    if ltb d base then some d else none

-- The digits from here on, after ones of the value `value`; no number if there are none at all.
unfoldable pub scan_digits : ℕ → Bool → ℕ → List ℕ → Run (Option ℕ)
scan_digits base any value [] = fault out_of_bounds
scan_digits base any value (c ∷ cs) = elim (digit base c) [
  | some d ↦ scan_digits base true (value * base + d) cs
  | none ↦ ok (if any then some value else none)
]

-- `0x` before the digits.
unfoldable pub scan_prefixed : ℕ → List ℕ → Run (Option ℕ)
scan_prefixed base [] = fault out_of_bounds
scan_prefixed base (c ∷ []) = scan_digits base false 0 (c ∷ [])
scan_prefixed base (c ∷ c' ∷ cs) =
    if (base == 16) && (c == b'0') && ((c' == b'x') || (c' == b'X'))
    then scan_digits base false 0 cs
    else scan_digits base false 0 (c ∷ c' ∷ cs)

-- The C library: that of the host, on which the simulator runs, and that of cc65.
pub data Library : Type 0 where
  host cc65 : Library

-- A number that is too big: the host's library stops at the greatest `unsigned long`, and cc65's keeps the
-- low bits. The standard leaves both open.
abbrev pub in_range : Library → ℕ → ℕ
in_range host v = least v (2 ^ 64 - 1)
in_range cc65 v = v

-- After a minus. A number that is too big is not turned around by the host's library.
abbrev opposite : Library → Option ℕ → Option ℕ
opposite l none = none
opposite host (some v) =
    some (if ltb v (2 ^ 64) then (2 ^ 16 - v % 2 ^ 16) % 2 ^ 16 else 2 ^ 16 - 1)
opposite cc65 (some v) = some ((2 ^ 16 - v % 2 ^ 16) % 2 ^ 16)

-- The sign before the number.
unfoldable pub scan_signed : Library → ℕ → List ℕ → Run (Option ℕ)
scan_signed l base [] = fault out_of_bounds
scan_signed l base (c ∷ cs) =
    if c == b'-'
    then (do v ← scan_prefixed base cs; ok (opposite l v))
    else if c == b'+'
    then scan_prefixed base cs
    else scan_prefixed base (c ∷ cs)

unfoldable pub skip_space : List ℕ → List ℕ
skip_space [] = []
skip_space (c ∷ cs) = elim (is_space c) [ true ↦ skip_space cs | false ↦ c ∷ cs ]

-- A number in the base after white space, as a 16-bit word; no number is none, also at the string's end.
unfoldable pub scan_number : Library → ℕ → List ℕ → Run (Option ℕ)
scan_number l base cs = do
  v ← scan_signed l base (skip_space cs)
  ok (elim v [ some n ↦ some (in_range l n % 2 ^ 16) | none ↦ none ])
