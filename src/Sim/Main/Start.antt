-- ===== src/Sim/Main/Start.antt =====
-- The start of `main`: the image of the ROM and the devices on the bus. sim/src/rom.c, ram.c.
use bit_computer.Common.{
  Bytes, List, Option, Run, ap, arith, exited, fault, from_list, if◌then◌else◌, length, le→leb,
  le→ltb, ltb, lt→ltb, none, ok, refl, some, ℕ, ◌%◌, ◌+◌, ◌-◌, ◌<◌, ◌>>=◌, ◌^◌, ◌∙◌, ◌≡◌, ◌≤◌,
}
use bit_computer.Sim.Bus.{Bus, between, bus_read, rom_read, rom_size, rom_start}
use bit_computer.Sim.Emulators.{Emulators}
use bit_computer.Sim.Main.{Sim, cycles, new_sim}
use bit_computer.Sim.Main.Cycles.{cycles-Fixed}
use bit_computer.Sim.Um245.{Incoming, create_um245}
use bit_computer.Sim.Via.{ViaApi}

-- `LoadFromFile`, for a file with these bytes, or no file: it must have as many as the ROM, and more are not read.
unfoldable load_from_file : Option (List ℕ) → Run Bytes
unfolding length from_list
load_from_file none = fault exited
load_from_file (some image) =
    if ltb (length image) rom_size then fault exited else ok (from_list image)

-- The RAM is what `malloc` gives.
unfoldable create_ram : Bytes → Bytes
create_ram memory = memory

unfoldable pub create_bus :
    (V : ViaApi) → V.Via → Bytes → List Incoming → Option (List ℕ) → Run (Bus V)
unfolding load_from_file create_ram
create_bus V via memory input image = do
  rom ← load_from_file image
  ok (record { ram = create_ram memory; rom = rom; um245 = create_um245 input; via = via })

bus_read-rom :
    {V : ViaApi} (a : ℕ) (bus : Bus V)
    → rom_start ≤ a
    → a < 2 ^ 16
    → bus_read V a bus ≡ ok (bus.rom (a - rom_size), bus)
unfolding bus_read between rom_read
bus_read-rom a bus lo hi =
    let offset : (a + 2 ^ 16 - rom_size) % 2 ^ 16 ≡ a - rom_size = omega arith in
    rw (le→ltb a 32768 (omega arith), le→leb 35840 a lo, lt→ltb a 65536 hi, offset, bus_read)
      (rw (lt→ltb (a - rom_size) rom_size (omega arith), le→leb 0 a (omega arith)) refl)

module _ {V : ViaApi} (image : List ℕ) (memory : Bytes) (input : List Incoming) (via : V.Via) where
  -- The bus with this image.
  abbrev pub image_bus : Bus V
  image_bus = record { ram = memory; rom = from_list image; um245 = create_um245 input; via = via }

  create_bus-image :
      rom_size ≤ length image → create_bus V via memory input (some image) ≡ ok image_bus
  unfolding create_bus create_ram load_from_file
  create_bus-image whole = rw (le→ltb (length image) rom_size whole, load_from_file) refl

  module _ {E : Emulators V} (cpu : E.Cpu) (typed : List ℕ) where
    -- The simulator starts with an image of at least 32768 bytes; and whatever the program has done and
    -- whatever has been typed in any number of rounds, a read from 0x8C00 on gives the byte of the image
    -- 0x8000 before.
    pub cycles-image :
        rom_size ≤ length image
        → (create_bus V via memory input (some image) ≡ ok image_bus)
          × ((n a : ℕ) (stack : Bytes) (t : Sim E)
              → cycles n stack (new_sim E cpu image_bus typed) ≡ ok t
              → rom_start ≤ a
              → a < 2 ^ 16
              → bus_read V a t.bus ≡ ok (from_list image (a - rom_size), t.bus))
    unfolding new_sim
    cycles-image whole = (
      create_bus-image whole,
      λ n a stack t run lo hi.
          bus_read-rom a t.bus lo hi
          ∙ ap (λ (m : Bytes). ok (m (a - rom_size), t.bus))
              ((cycles-Fixed n stack (new_sim E cpu image_bus typed) t run).0),
    )
