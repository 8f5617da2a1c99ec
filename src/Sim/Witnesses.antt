-- ===== src/Sim/Witnesses.antt =====
-- The theorems on the simulator with a chip of sixteen plain registers.
use Prim.{tt}
use bit_computer.Common.{
  Bytes, List, Returns, [], arith, bytes_of, fault, from_list, if◌then◌else◌, inl, inr, length,
  length-bytes_of, negsuc, ok, out_of_bounds, poke, refl, some, starts_with, true, zeros, ℕ, ◌%◌,
  ◌++◌, ◌+◌, ◌-◌, ◌<◌, ◌==◌, ◌^◌, ◌∷◌, ◌≡◌, ◌≢◌, ◌≤◌,
}
use bit_computer.Sim.Bus.{Bus, bus_read, bus_write, rom_size, rom_start}
use bit_computer.Sim.Bus.Send.{send_bytes, session-send_bytes}
use bit_computer.Sim.Bus.Session.{Access, access, ram_after, reads, session, session-rest, writes}
use bit_computer.Sim.Emulators.{Emulators, done, fetch, int_low, store, transfer}
use bit_computer.Sim.Main.{
  Sim, answer, cycle, cycles, debug, debugger, getchar, interrupt, new_sim, request, same_word,
  scan,
}
use bit_computer.Sim.Main.Cycles.{Fixed, cycles-Fixed}
use bit_computer.Sim.Main.Ends.{debugger-NoNewline, typing}
use bit_computer.Sim.Main.Resume.{
  AllAskRegisters, IsLine, debug-registers, registers_shown, typed_lines,
}
use bit_computer.Sim.Main.Stack.{scan-print_stack, stack_lines}
use bit_computer.Sim.Main.Start.{create_bus, cycles-image, image_bus}
use bit_computer.Sim.Um245.{
  byte, create_um245, test_bit, um245_write, update_state, wants_read, wants_write,
}
use bit_computer.Sim.Via.{PortB, ViaApi}

abbrev registers : ViaApi
registers = record { Via = ℕ → ℕ; via_read = λ v r. (v r, v); via_write = poke }

-- Register 2 holds the directions of port B.
abbrev registers_port_b : PortB registers
registers_port_b = record {
  IsOutput = λ v. v 2 ≡ 0xff;
  write_keeps = λ v d h. h;
  read_keeps = λ v h. h;
  read-write = λ v d h. refl;
}

abbrev start : Bus registers
start = record {
  ram = zeros;
  rom = λ k. k % 256;
  um245 = create_um245 (byte 7 ∷ []);
  via = λ r. if r == 2 then 0xff else 0;
}

accesses : List Access
accesses =
    writes 0x200 5 ∷ reads 0x8c00 ∷ writes 0x8010 10 ∷ writes 0x8001 0x40 ∷ writes 0x8001 0 ∷ []

session_accesses : (x : Bus registers) × (session registers accesses start ≡ ok x)
unfolding accesses session access bus_read bus_write um245_write update_state wants_read wants_write
    test_bit create_um245
session_accesses = (_, refl)

-- The processor asks for a byte of the pipe, and gets none.
session-rest_example :
    (session_accesses.0.rom ≡ start.rom)
    × (session_accesses.0.um245.input ≡ start.um245.input)
    × (session_accesses.0.ram ≡ ram_after accesses start.ram)
session-rest_example = session-rest registers accesses start session_accesses.0 session_accesses.1

session-send_bytes_example :
    Returns
      (session registers (send_bytes registers_port_b 0 0x80 (72 ∷ 105 ∷ [])) start)
      (λ bus'. (bus'.um245.output ≡ start.um245.output ++ (72 ∷ 105 ∷ [])) × (bus'.via 2 ≡ 0xff))
unfolding test_bit
session-send_bytes_example =
    session-send_bytes registers_port_b 0 0x80 (72 ∷ 105 ∷ []) start refl refl refl

-- A processor that counts, reads the ROM and writes to the RAM; every second instruction is a nop.
abbrev counter : Emulators registers
counter = record {
  Cpu = ℕ;
  tick = λ n. fetch 0x8c00 (λ x. store 0x200 x (done (n + 1)));
  disassemble = λ n. fetch 0x8c01 (λ x. done tt);
  opcode_cycle = λ n. 0;
  mnemonic = λ n. if n % 2 == 0 then b'n' ∷ b'o' ∷ b'p' ∷ [] else b'l' ∷ b'd' ∷ b'a' ∷ [];
  get_status = λ n. 4;
  get_stack_pointer = λ n. 0xff;
  get_acc = λ n. n;
  get_x = λ n. 0;
  get_y = λ n. 0;
  set_irq = λ x n. n;
  via_tick = λ v. v;
  via_int = λ v. int_low;
}

-- `c` is typed at the nop.
abbrev two_rounds : Sim counter
two_rounds = new_sim counter 0 start (b'c' ∷ b'\n' ∷ [])

cycles_two : (t : Sim counter) × (cycles 2 zeros two_rounds ≡ ok t)
unfolding new_sim cycles cycle transfer bus_read bus_write debug debugger scan request answer
    starts_with getchar same_word interrupt length
cycles_two = (_, refl)

cycles-Fixed_example : Fixed start cycles_two.0.bus
unfolding new_sim
cycles-Fixed_example = cycles-Fixed 2 zeros two_rounds cycles_two.0 cycles_two.1

debugger-NoNewline_example :
    debugger 70 zeros 0 (typing (b'c' ∷ []) two_rounds) ≡ fault out_of_bounds
unfolding length
debugger-NoNewline_example =
    debugger-NoNewline 70 (b'c' ∷ []) zeros 0 two_rounds (λ e. absurd (omega arith), tt)
      (omega arith) (omega arith)

print_stack_line : Bytes
print_stack_line =
    from_list
      (b'p' ∷ b'r' ∷ b'i' ∷ b'n' ∷ b't' ∷ b'-' ∷ b's' ∷ b't' ∷ b'a' ∷ b'c' ∷ b'k' ∷ b'\n' ∷ [])

scan-print_stack_example :
    scan print_stack_line two_rounds
    ≡ ok (negsuc 0, record two_rounds { terminal = stack_lines 0x100 zeros })
unfolding new_sim print_stack_line starts_with from_list
scan-print_stack_example = scan-print_stack print_stack_line two_rounds refl

-- An image of the size of the ROM.
blank_image : List ℕ
blank_image = bytes_of rom_size 0 (λ k. 0xea)

cycles-image_example :
    (create_bus registers (λ r. 0) zeros [] (some blank_image)
      ≡ ok (image_bus blank_image zeros [] (λ r. 0)))
    × ((n a : ℕ) (stack : Bytes) (t : Sim counter)
        → cycles n stack (new_sim counter 0 (image_bus blank_image zeros [] (λ r. 0)) []) ≡ ok t
        → rom_start ≤ a
        → a < 2 ^ 16
        → bus_read registers a t.bus ≡ ok (from_list blank_image (a - rom_size), t.bus))
unfolding blank_image
cycles-image_example =
    cycles-image blank_image zeros [] (λ r. 0) {E = counter} 0 []
      (omega (arith, length-bytes_of rom_size 0 (λ k. 0xea)))

-- The lines `a`, `yes` and `c` for the debugger at a `nop`.
abbrev asked : List (List ℕ)
asked = (b'a' ∷ []) ∷ (b'y' ∷ b'e' ∷ b's' ∷ []) ∷ []

no_newline : (c : ℕ) → 10 < c → c ≢ b'\n'
no_newline c h = λ e. absurd (omega arith)

asked-AllAskRegisters : AllAskRegisters asked
unfolding length
asked-AllAskRegisters = (
  record {
    is_line = record { fits = omega arith; plain = (no_newline b'a' (omega arith), tt) };
    letter = b'a';
    rest = [];
    starts = refl;
    known = inl refl;
  },
  (
    record {
      is_line = record {
        fits = omega arith;
        plain = (
          no_newline b'y' (omega arith),
          (no_newline b'e' (omega arith), (no_newline b's' (omega arith), tt)),
        );
      };
      letter = b'y';
      rest = b'e' ∷ b's' ∷ [];
      starts = refl;
      known = inr (inr refl);
    },
    tt,
  ),
)

continue-IsLine : IsLine (b'c' ∷ [])
unfolding length
continue-IsLine = record { fits = omega arith; plain = (no_newline b'c' (omega arith), tt) }

debug-registers_example :
    debug zeros (typing (typed_lines asked ((b'c' ∷ []) ++ (b'\n' ∷ b'r' ∷ []))) two_rounds)
    ≡ ok (record two_rounds {
      input = b'r' ∷ [];
      step_debugger_enabled = true;
      terminal = two_rounds.terminal ++ registers_shown counter asked two_rounds.cpu;
    })
unfolding new_sim same_word
debug-registers_example =
    debug-registers asked (b'c' ∷ []) b'c' [] zeros (b'r' ∷ []) two_rounds asked-AllAskRegisters
      continue-IsLine refl (inl refl) refl refl
