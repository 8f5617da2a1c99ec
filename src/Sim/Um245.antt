-- ===== src/Sim/Um245.antt =====
-- sim/src/um245.c: the adapter that forwards bytes of port B to a pipe.
pub mod Edge
use bit_computer.Common.{
  Bool, List, Run, [], exited, false, fault, if◌then◌else◌, indeterminate, not, ok, true, ℕ, ◌%◌,
  ◌++◌, ◌/◌, ◌==◌, ◌>>=◌, ◌^◌, ◌∷◌,
}
use bit_computer.Sim.Via.{ViaApi, via_reg_port_a, via_reg_port_b}

-- `um245Status`
pub data Um245Status : Type 0 where
  undefined_state read_high read_low write_high write_low : Um245Status

-- What a `read` of one byte from the pipe answers: -1, 0, or a byte.
pub data Incoming : Type 0 where
  failure end_of_file : Incoming
  byte : ℕ → Incoming

-- `Um245`, with what its two pipes will answer and have been given.
pub record Um245 : Type 0 where
  pub prev_state : Um245Status
  pub state : Um245Status
  pub input : List Incoming
  pub output : List ℕ

-- `CreateUm245`
unfoldable pub create_um245 : List Incoming → Um245
create_um245 input = record {
  prev_state = undefined_state;
  state = undefined_state;
  input = input;
  output = [];
}

abbrev pub um245_start : ℕ
um245_start = 0x8001

abbrev pub um245_length : ℕ
um245_length = 1

-- `val & (1 << i)`, as a test
unfoldable pub test_bit : ℕ → ℕ → Bool
test_bit i val = val / 2 ^ i % 2 == 1

-- At the end of the file the code goes on with a byte that was never set. An empty pipe that does not
-- block is an error.
unfoldable pub pipe_read : Um245 → Run (ℕ × Um245)
pipe_read um = elim um.input [
  | [] ↦ fault exited
  | next ∷ rest ↦ elim next [
    | failure ↦ fault exited
    | end_of_file ↦ fault indeterminate
    | byte d ↦ ok (d, record um { input = rest })
  ]
]

unfoldable pub pipe_write : Um245 → ℕ → Um245
pipe_write um val = record um { output = um.output ++ (val ∷ []) }

unfoldable pub update_state : Um245 → ℕ → Um245
update_state um val =
    let um₁ : Um245 = record um { prev_state = um.state } in
    let um₂ : Um245 = record um₁ { state = if test_bit 6 val then read_high else read_low } in
    record um₂ { state = if test_bit 7 val then write_high else write_low }

-- `prevState == READ_HIGH && state == READ_LOW`
unfoldable pub wants_read : Um245Status → Um245Status → Bool
wants_read read_high read_low = true
wants_read _ _ = false

-- `prevState == WRITE_LOW && state == WRITE_HIGH`
unfoldable pub wants_write : Um245Status → Um245Status → Bool
wants_write write_low write_high = true
wants_write _ _ = false

unfoldable pub um245_read : ℕ → Um245 → ℕ
um245_read add um = if add % 256 == via_reg_port_a then 1 else 0

module _ (V : ViaApi) where
  unfoldable pub um245_write : ℕ → ℕ → Um245 → V.Via → Run (Um245 × V.Via)
  unfolding update_state
  um245_write add val um via =
      let um₁ = update_state um val in
      if not (add % 256 == via_reg_port_a)
      then ok (um, via)
      else if wants_read um₁.prev_state um₁.state
      then (do (d, um₂) ← pipe_read um₁; ok (um₂, V.via_write via via_reg_port_b d))
      else if wants_write um₁.prev_state um₁.state
      then (let (d, via₁) = V.via_read via via_reg_port_b in ok (pipe_write um₁ d, via₁))
      else ok (um₁, via)
