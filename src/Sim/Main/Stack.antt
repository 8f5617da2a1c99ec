-- ===== src/Sim/Main/Stack.antt =====
-- `print-stack`.
use bit_computer.Common.{
  Bytes, List, [], ap, append-nil, append_assoc, arith, negsuc, ok, refl, starts_with, suc, sym,
  true, zero, ℕ, ◌++◌, ◌+◌, ◌<◌, ◌∙◌, ◌∷◌, ◌≡◌, ◌≤◌,
}
use bit_computer.Sim.Bus.{between, bus_read, ram_length, ram_read}
use bit_computer.Sim.Emulators.{Emulators}
use bit_computer.Sim.Main.{Shown, Sim, answer, look, print_stack, request, scan, show, stack_byte}
use bit_computer.Sim.Via.{ViaApi}

-- The lines for the bytes of the RAM from 0x100 + n - 1 down to 0x100.
unfoldable pub stack_lines : ℕ → Bytes → List Shown
stack_lines zero ram = []
stack_lines (suc n) ram = stack_byte (0x100 + n) (ram (0x100 + n)) ∷ stack_lines n ram

module _ {V : ViaApi} {E : Emulators V} where
  pub look_ram : (a : ℕ) (s : Sim E) → a < ram_length → look a s ≡ ok (s.bus.ram a, s)
  unfolding look bus_read between ram_read
  look_ram a s h = ground arith

  print_stack-stack_lines :
      (n : ℕ) (s : Sim E)
      → n ≤ 0x100
      → print_stack n s ≡ ok (record s { terminal = s.terminal ++ stack_lines n s.bus.ram })
  unfolding print_stack stack_lines show
  print_stack-stack_lines zero s h =
      ap (λ l. ok (record s { terminal = l })) (sym (append-nil s.terminal))
  print_stack-stack_lines (suc n) s h =
      rw (look_ram (0x100 + n) s (omega arith), print_stack)
        (print_stack-stack_lines n (show (stack_byte (0x100 + n) (s.bus.ram (0x100 + n))) s)
            (omega arith)
          ∙ ap (λ l. ok (record s { terminal = l }))
              (append_assoc s.terminal (stack_byte (0x100 + n) (s.bus.ram (0x100 + n)) ∷ [])
                (stack_lines n s.bus.ram)))

  -- A line that begins with print-stack shows the 256 bytes of the stack from the top down, asks for another
  -- line, and changes nothing else.
  pub scan-print_stack :
      (text : Bytes) (s : Sim E)
      → starts_with
          (b'p' ∷ b'r' ∷ b'i' ∷ b'n' ∷ b't' ∷ b'-' ∷ b's' ∷ b't' ∷ b'a' ∷ b'c' ∷ b'k' ∷ [])
          0
          text
        ≡ true
      → scan text s
        ≡ ok (negsuc 0, record s { terminal = s.terminal ++ stack_lines 0x100 s.bus.ram })
  unfolding scan answer request
  scan-print_stack text s h =
      rw (h, request) (rw (print_stack-stack_lines 0x100 s (omega arith), answer) refl)
