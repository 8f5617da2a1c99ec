-- ===== src/Sim/Labels/Source.antt =====
-- What debuggerLoadLabels of sim/src/labelmap.c does with a file.
use bit_computer.Common.{
  Bool, List, Run, [], fault, indeterminate, out_of_bounds, true, ℕ, ◌&&◌, ◌∷◌, ◌≡◌, ◌⊎◌,
}
use bit_computer.Sim.Labels.{LabelMap, is_empty}

abbrev pub all_empty : List (List ℕ) → Bool
all_empty [] = true
all_empty (text ∷ lines) = is_empty text && all_empty lines

-- A store past an array, or the use of a label that has no value.
abbrev pub GoesWrong : Run LabelMap → Type 0
GoesWrong r = (r ≡ fault out_of_bounds) ⊎ (r ≡ fault indeterminate)
