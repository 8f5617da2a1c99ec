-- ===== src/Sim/Emulators.antt =====
-- The calls of sim/src/main.c on the emulators, and what an emulated processor does on the bus.
use bit_computer.Common.{List, Run, ok, ℕ, ◌>>=◌}
use bit_computer.Sim.Bus.{Bus, bus_read, bus_write}
use bit_computer.Sim.Via.{ViaApi}

-- What the emulated processor does to the memory in one call: it reads with `My6502MemoryReadFunction`, goes
-- on by what it has read, and writes with `My6502MemoryWriteFunction`.
pub data Transfer {ℓ} (A : Type ℓ) : Type ℓ where
  fetch : ℕ → (ℕ → Transfer A) → Transfer A
  store : ℕ → ℕ → Transfer A → Transfer A
  done : A → Transfer A

pub data Signal : Type 0 where
  int_requested int_cleared int_low int_high : Signal

-- The calls of the emulators, whose code is in repositories of their own. The disassembly reads the memory.
pub record Emulators (V : ViaApi) : Type 1 where
  pub Cpu : Type 0
  pub tick : Cpu → Transfer Cpu
  pub disassemble : Cpu → Transfer (Unit {0})
  pub opcode_cycle : Cpu → ℕ
  pub mnemonic : Cpu → List ℕ
  pub get_status : Cpu → ℕ
  pub get_stack_pointer : Cpu → ℕ
  pub get_acc : Cpu → ℕ
  pub get_x : Cpu → ℕ
  pub get_y : Cpu → ℕ
  pub set_irq : Signal → Cpu → Cpu
  pub via_tick : V.Via → V.Via
  pub via_int : V.Via → Signal

module _ (V : ViaApi) where
  unfoldable pub transfer {ℓ} : {A : Type ℓ} → Transfer A → Bus V → Run (A × Bus V)
  transfer (done a) bus = ok (a, bus)
  transfer (fetch addr go_on) bus = bus_read V addr bus >>= λ r. transfer (go_on r.0) r.1
  transfer (store addr val rest) bus = bus_write V addr val bus >>= λ bus'. transfer rest bus'
