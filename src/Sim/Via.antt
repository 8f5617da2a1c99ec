-- ===== src/Sim/Via.antt =====
-- The calls of the simulator on the emulated 6522, whose code is in a repository of its own: what
-- sim/src/via6522.c calls, and the registers that sim/src/um245.c names.
use bit_computer.Common.{ℕ, ◌≡◌}

abbrev pub via_reg_port_b : ℕ
via_reg_port_b = 0

abbrev pub via_reg_port_a : ℕ
via_reg_port_a = 1

-- A read may change the chip: it clears interrupt flags.
pub record ViaApi : Type 1 where
  pub Via : Type 0
  pub via_read : Via → ℕ → ℕ × Via
  pub via_write : Via → ℕ → ℕ → Via

-- The part of the documented behaviour that a driver of port B relies on: while its pins are outputs, a
-- read of port B gives the byte that was written last, and accesses to it leave the directions alone.
pub record PortB (V : ViaApi) : Type 1 where
  pub IsOutput : V.Via → Type 0
  pub write_keeps : (v : V.Via) (d : ℕ) → IsOutput v → IsOutput (V.via_write v via_reg_port_b d)
  pub read_keeps : (v : V.Via) → IsOutput v → IsOutput (V.via_read v via_reg_port_b).1
  pub read-write :
      (v : V.Via) (d : ℕ)
      → IsOutput v
      → (V.via_read (V.via_write v via_reg_port_b d) via_reg_port_b).0 ≡ d

abbrev pub via6522_start : ℕ
via6522_start = 0x8000

abbrev pub via6522_length : ℕ
via6522_length = 0x0f
