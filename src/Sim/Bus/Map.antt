-- ===== src/Sim/Bus/Map.antt =====
-- The memory map of the bus of sim/src/bus.c.
use bit_computer.Common.{
  Bool-cases, arith, exited, false, fault, if◌then◌else◌, inl, inr, ok, poke, refl, ℕ, ◌<◌, ◌==◌,
  ◌>>=◌, ◌^◌, ◌↔◌, ◌∙◌, ◌≡◌, ◌≤◌, ◌⊎◌,
}
use bit_computer.Sim.Bus.{Bus, between, bus_read, bus_write, ram_length, rom_start}
use bit_computer.Sim.Bus.Session.{adapter_address, bus_write-adapter}
use bit_computer.Sim.Um245.{um245_length, um245_start}
use bit_computer.Sim.Um245.Edge.{um245_write-input}
use bit_computer.Sim.Via.{ViaApi}

-- No device covers these addresses.
abbrev IsUnmapped : ℕ → Type 0
IsUnmapped a = (a ≡ 0x800f) ⊎ ((0x8015 ≤ a) × (a < 0x8c00))

module _ (V : ViaApi) where
  -- A byte written to an address of the RAM is read back from there, a read of any other address of
  -- the RAM gives what it held, and nothing but the written byte has changed.
  bus_read-bus_write :
      (a v c : ℕ) (bus : Bus V)
      → a < ram_length
      → c < ram_length
      → (bus_write V a v bus >>= bus_read V c)
        ≡ ok (if a == c then v else bus.ram c, record bus { ram = poke bus.ram a v })
  unfolding bus_read bus_write
  bus_read-bus_write a v c bus ha hc = ground arith

  -- A read of a 16-bit address ends the simulator exactly if no device covers the address.
  bus_read-exits :
      (a : ℕ) (bus : Bus V) → a < 2 ^ 16 → (bus_read V a bus ≡ fault exited) ↔ IsUnmapped a
  unfolding bus_read
  bus_read-exits a bus h = ground arith

  bus_write_elsewhere-exits :
      (a v : ℕ) (bus : Bus V)
      → a < 2 ^ 16
      → between a um245_start um245_length ≡ false
      → (bus_write V a v bus ≡ fault exited) ↔ (IsUnmapped a ⊎ (rom_start ≤ a))
  unfolding bus_write between
  bus_write_elsewhere-exits a v bus h elsewhere = ground arith

  -- A write to a 16-bit address ends the simulator exactly if no device covers the address, or the ROM
  -- does.
  bus_write-exits :
      (a v : ℕ) (bus : Bus V)
      → a < 2 ^ 16
      → (bus_write V a v bus ≡ fault exited) ↔ (IsUnmapped a ⊎ (rom_start ≤ a))
  bus_write-exits a v bus h = elim (Bool-cases (between a um245_start um245_length)) [
    | inl here ↦
        let (r, sent, _) = um245_write-input V v bus.um245 bus.via in
        let run : bus_write V a v bus ≡ ok (record bus { um245 = r.0; via = r.1 }) =
          bus_write-adapter V a v bus here ∙ rw sent refl in
        ground (arith, run, adapter_address a here)
    | inr elsewhere ↦ bus_write_elsewhere-exits a v bus h elsewhere
  ]
