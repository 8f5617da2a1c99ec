-- ===== src/Sim/Bus.antt =====
-- sim/src/bus.c, and the devices of sim/src/ram.c, rom.c and spy.c. What they print is not modelled.
pub mod Map
pub mod Session
pub mod Send
use bit_computer.Common.{
  Bool, Bytes, Run, exited, fault, if◌then◌else◌, leb, ltb, ok, poke, ℕ, ◌%◌, ◌&&◌, ◌+◌, ◌-◌, ◌>>=◌,
  ◌^◌,
}
use bit_computer.Sim.Um245.{Um245, um245_length, um245_read, um245_start, um245_write}
use bit_computer.Sim.Via.{ViaApi, via6522_length, via6522_start}

abbrev ram_start : ℕ
ram_start = 0

abbrev ram_size : ℕ
ram_size = 0x7fff + 1

abbrev pub ram_length : ℕ
ram_length = ram_size

abbrev pub rom_start : ℕ
rom_start = 0x8c00

abbrev rom_length : ℕ
rom_length = 0x7400

abbrev pub rom_size : ℕ
rom_size = 0x8000

abbrev spy_start : ℕ
spy_start = 0x8010

abbrev spy_length : ℕ
spy_length = 5

unfoldable pub ram_read : ℕ → Bytes → Run ℕ
ram_read addr ram = if ltb addr ram_size then ok (ram addr) else fault exited

unfoldable ram_write : ℕ → ℕ → Bytes → Run Bytes
ram_write addr val ram = if ltb addr ram_size then ok (poke ram addr val) else fault exited

-- The offset is a 16-bit difference.
unfoldable pub rom_read : ℕ → Bytes → Run ℕ
rom_read addr rom =
    let offset = (addr + 2 ^ 16 - rom_size) % 2 ^ 16 in
    if ltb offset rom_size then ok (rom offset) else fault exited

unfoldable rom_write : ℕ → ℕ → Bytes → Run Bytes
rom_write addr val rom = fault exited

unfoldable spy_read : ℕ → ℕ
spy_read addr = 0

-- `between(val, start, length)`; the sum does not wrap, since the length has 32 bits.
unfoldable pub between : ℕ → ℕ → ℕ → Bool
between val start length = leb start val && ltb val (start + length)

module _ (V : ViaApi) where
  -- `Bus`. Its `via` is also the one of the adapter.
  pub record Bus : Type 0 where
    pub ram : Bytes
    pub rom : Bytes
    pub um245 : Um245
    pub via : V.Via

  -- Only the chip changes when it is read.
  unfoldable pub bus_read : ℕ → Bus → Run (ℕ × Bus)
  unfolding between ram_read rom_read spy_read um245_read
  bus_read addr bus =
      if between addr ram_start ram_length
      then (do val ← ram_read addr bus.ram; ok (val, bus))
      else if between addr rom_start rom_length
      then (do val ← rom_read addr bus.rom; ok (val, bus))
      else if between addr spy_start spy_length
      then ok (spy_read addr, bus)
      else if between addr um245_start um245_length
      then ok (um245_read addr bus.um245, bus)
      else if between addr via6522_start via6522_length
      then (let (val, via) = V.via_read bus.via (addr % 256) in ok (val, record bus { via = via }))
      else fault exited

  unfoldable pub bus_write : ℕ → ℕ → Bus → Run Bus
  unfolding between ram_write rom_write
  bus_write addr val bus =
      if between addr ram_start ram_length
      then (do ram ← ram_write addr val bus.ram; ok (record bus { ram = ram }))
      else if between addr rom_start rom_length
      then (do rom ← rom_write addr val bus.rom; ok (record bus { rom = rom }))
      else if between addr spy_start spy_length
      then ok bus
      else if between addr um245_start um245_length
      then (do
        (um, via) ← um245_write V addr val bus.um245 bus.via
        ok (record bus { um245 = um; via = via }))
      else if between addr via6522_start via6522_length
      then ok (record bus { via = V.via_write bus.via (addr % 256) val })
      else fault exited
