-- ===== src/Sim/Labels.antt =====
-- sim/src/labelmap.c: the labels of a program, from the file that the linker writes.
pub mod Source
mod Witnesses
use Prim.Native.Nat.{min as least}
use bit_computer.Common.{
  Bool, List, Option, Run, [], digit, false, fault, if◌then◌else◌, indeterminate, is_space, leb,
  length, ltb, none, null_pointer, ok, out_of_bounds, skip_space, some, true, ℕ, ◌%◌, ◌&&◌, ◌*◌,
  ◌+◌, ◌-◌, ◌==◌, ◌>>=◌, ◌^◌, ◌||◌, ◌∷◌,
}

-- `char *labelMap[0x10000]`
abbrev pub LabelMap : Type 0
LabelMap = ℕ → Option (List ℕ)

-- `char al[2]`
abbrev al_room : ℕ
al_room = 2

-- `malloc(sizeof(uint16_t))`, for a conversion that stores four bytes.
abbrev address_room : ℕ
address_room = 2

-- `malloc(50 * sizeof(char))`
abbrev label_room : ℕ
label_room = 50

abbrev pub is_empty : List ℕ → Bool
is_empty [] = true
is_empty (c ∷ cs) = false

-- `%s` after white space has been passed over: the word, and the rest.
unfoldable pub scan_word : List ℕ → List ℕ × List ℕ
scan_word [] = ([], [])
scan_word (c ∷ cs) =
    let (w, rest) = scan_word cs in if is_space c then ([], c ∷ cs) else (c ∷ w, rest)

-- The digits of `%x` after ones of the value `value`, and the rest; none if there are no digits at all.
unfoldable pub scan_hex_digits : Bool → ℕ → List ℕ → Option (ℕ × List ℕ)
scan_hex_digits any value [] = if any then some (value, []) else none
scan_hex_digits any value (c ∷ cs) = elim (digit 16 c) [
  | some d ↦ scan_hex_digits true (value * 16 + d) cs
  | none ↦ if any then some (value, c ∷ cs) else none
]

unfoldable pub scan_hex_prefixed : List ℕ → Option (ℕ × List ℕ)
scan_hex_prefixed [] = none
scan_hex_prefixed (c ∷ []) = scan_hex_digits false 0 (c ∷ [])
scan_hex_prefixed (c ∷ d ∷ cs) =
    if (c == b'0') && ((d == b'x') || (d == b'X'))
    then scan_hex_digits false 0 cs
    else scan_hex_digits false 0 (c ∷ d ∷ cs)

-- `%x`: the number, which stops at the greatest `unsigned long`, and after a minus the opposite of
-- a number up to that.
unfoldable pub scan_hex : List ℕ → Option (ℕ × List ℕ)
scan_hex [] = none
scan_hex (c ∷ cs) =
    if c == b'-'
    then elim (scan_hex_prefixed cs) [
      | none ↦ none
      | some (value, rest) ↦
          some (if ltb value (2 ^ 64) then (2 ^ 64 - value) % 2 ^ 64 else 2 ^ 64 - 1, rest)
    ]
    else elim (scan_hex_prefixed (if c == b'+' then cs else c ∷ cs)) [
      | none ↦ none
      | some (value, rest) ↦ some (least value (2 ^ 64 - 1), rest)
    ]

-- `strncmp(label, "__", 2) == 0`
abbrev is_hidden : List ℕ → Bool
is_hidden [] = false
is_hidden (c ∷ []) = false
is_hidden (c ∷ d ∷ cs) = (c == b'_') && (d == b'_')

abbrev set_label : ℕ → List ℕ → LabelMap → LabelMap
set_label address label map a = if address == a then some label else map a

-- The third conversion and the test. The address is in the low half of what `%x` has stored.
unfoldable pub store_label : ℕ → List ℕ → LabelMap → Run LabelMap
store_label value label map =
    if is_empty label
    then fault indeterminate
    else if ltb (length label) label_room
    then ok (if is_hidden label then map else set_label (value % 2 ^ 16) label map)
    else fault out_of_bounds

-- The body of the loop. A conversion that is not made leaves the label with no value.
unfoldable pub load_line : List ℕ → LabelMap → Run LabelMap
load_line line map =
    let (al, rest) = scan_word (skip_space line) in
    if is_empty al
    then fault indeterminate
    else if leb al_room (length al)
    then fault out_of_bounds
    else elim (scan_hex (skip_space rest)) [
      | none ↦ fault indeterminate
      | some (value, rest') ↦
          if ltb address_room 4
          then fault out_of_bounds
          else store_label value (scan_word (skip_space rest')).0 map
    ]

-- A character before the first of these lines.
abbrev in_first : ℕ → List (List ℕ) → List (List ℕ)
in_first c [] = (c ∷ []) ∷ []
in_first c (line ∷ lines) = (c ∷ line) ∷ lines

unfoldable pub split_lines : List ℕ → List (List ℕ)
split_lines [] = []
split_lines (c ∷ cs) =
    let lines = split_lines cs in if c == b'\n' then [] ∷ lines else in_first c lines

-- `strtok` passes over empty lines.
unfoldable pub load_lines : List (List ℕ) → LabelMap → Run LabelMap
load_lines [] map = ok map
load_lines (line ∷ lines) map = do
  map' ← (if is_empty line then ok map else load_line line map)
  load_lines lines map'

-- The old labels are freed first. `text` has no null.
unfoldable pub load_labels : List ℕ → LabelMap → Run LabelMap
load_labels text map = load_lines (split_lines text) (λ a. none)

-- A string ends at its first null.
unfoldable pub until_null : List ℕ → List ℕ
until_null [] = []
until_null (c ∷ cs) = (let rest = until_null cs in if c == 0 then [] else c ∷ rest)

-- `readFile` of a file with these bytes, if there is one, with whether `malloc` succeeds: what a string in the
-- buffer holds.
unfoldable pub read_file : Option (List ℕ) → Bool → Option (List ℕ)
read_file none has_memory = none
read_file (some bytes) has_memory = if has_memory then some (until_null bytes) else none

-- `main` gives the result to `debuggerLoadLabels` without a test, and `strtok` is then called with a null pointer
-- first of all.
unfoldable load_label_file : Option (List ℕ) → Bool → LabelMap → Run LabelMap
load_label_file file has_memory map = elim (read_file file has_memory) [
  | none ↦ fault null_pointer
  | some text ↦ load_labels text map
]
