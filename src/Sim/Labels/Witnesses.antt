-- ===== src/Sim/Labels/Witnesses.antt =====
-- A file of labels.
use bit_computer.Common.{List, [], ℕ, ◌∷◌}

-- `al 00F1 .go`
abbrev go_line : List ℕ
go_line = b'a' ∷ b'l' ∷ b' ' ∷ b'0' ∷ b'0' ∷ b'F' ∷ b'1' ∷ b' ' ∷ b'.' ∷ b'g' ∷ b'o' ∷ b'\n' ∷ []
