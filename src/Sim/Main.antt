-- ===== src/Sim/Main.antt =====
-- sim/src/main.c: the loop around the emulated processor and its debugger. The terminal shows what `scan`
-- prints; the prompt, the disassembly and what a device prints are not modelled.
pub mod Watch
pub mod Fuel
pub mod Ends
pub mod Stack
pub mod Cycles
pub mod Start
pub mod Peek
pub mod Resume
use bit_computer.Common.{
  Bool, Bytes, List, Option, Run, [], bytes_of, false, fault, host, if◌then◌else◌, is_zero, length,
  ltb, negsuc, none, ok, out_of_bounds, out_of_fuel, poke, pos, scan_number, some, starts_with, suc,
  true, zero, zeros, ℕ, ℤ, ◌&&◌, ◌++◌, ◌+◌, ◌==◌, ◌>>=◌, ◌||◌, ◌∷◌,
}
use bit_computer.Sim.Bus.{Bus, bus_read}
use bit_computer.Sim.Emulators.{
  Emulators, Signal, int_cleared, int_high, int_low, int_requested, transfer,
}
use bit_computer.Sim.Um245.{test_bit}
use bit_computer.Sim.Via.{ViaApi}

-- A line on the terminal.
pub data Shown : Type 0 where
  stack_byte : ℕ → ℕ → Shown
  peeked : ℕ → Shown
  interrupts_disabled interrupts_enabled : Shown
  stack_pointer : ℕ → Shown
  register_value : ℕ → ℕ → Shown

-- What a line asks for: the chain of comparisons in `scan`.
pub data Request : Type 0 where
  asks_stack asks_peek asks_status asks_sp asks_a asks_x asks_y asks_continue asks_resume
        asks_nothing :
      Request

unfoldable pub request : Bytes → Request
unfolding starts_with
request text =
    if starts_with (b'p' ∷ b'r' ∷ b'i' ∷ b'n' ∷ b't' ∷ b'-' ∷ b's' ∷ b't' ∷ b'a' ∷ b'c' ∷ b'k' ∷ [])
      0 text
    then asks_stack
    else if starts_with (b'p' ∷ b'e' ∷ b'e' ∷ b'k' ∷ []) 0 text
    then asks_peek
    else if starts_with (b's' ∷ b't' ∷ b'a' ∷ b't' ∷ b'u' ∷ b's' ∷ []) 0 text
    then asks_status
    else if starts_with (b's' ∷ b'p' ∷ []) 0 text
    then asks_sp
    else if starts_with (b'a' ∷ []) 0 text
    then asks_a
    else if starts_with (b'x' ∷ []) 0 text
    then asks_x
    else if starts_with (b'y' ∷ []) 0 text
    then asks_y
    else if starts_with (b'c' ∷ []) 0 text
    then asks_continue
    else if starts_with (b'r' ∷ []) 0 text
    then asks_resume
    else asks_nothing

-- `strcmp` of two strings that are not changed.
unfoldable pub same_word : List ℕ → List ℕ → Bool
same_word [] [] = true
same_word [] (x ∷ xs) = false
same_word (x ∷ xs) [] = false
same_word (x ∷ xs) (y ∷ ys) = (x == y) && same_word xs ys

abbrev pub line_size : ℕ
line_size = 64

abbrev pub nop : List ℕ
nop = b'n' ∷ b'o' ∷ b'p' ∷ []

abbrev pub brk : List ℕ
brk = b'b' ∷ b'r' ∷ b'k' ∷ []

-- At the end of the input `getchar` answers `EOF`, which is 255 as a `char`.
unfoldable pub getchar : List ℕ → ℕ × List ℕ
getchar [] = (255, [])
getchar (c ∷ cs) = (c, cs)

module _ {V : ViaApi} (E : Emulators V) where
  -- The variables of the program, with the input and the terminal.
  pub record Sim : Type 0 where
    pub cpu : E.Cpu
    pub bus : Bus V
    pub step_debugger_enabled : Bool
    pub instruction_completed : Bool
    pub input : List ℕ
    pub terminal : List Shown

  -- The processor's pin follows the chip's.
  unfoldable pub interrupt : Signal → E.Cpu → E.Cpu
  interrupt int_requested cpu = E.set_irq int_requested cpu
  interrupt int_cleared cpu = E.set_irq int_cleared cpu
  interrupt int_low cpu = cpu
  interrupt int_high cpu = cpu

  -- The variables before the loop.
  unfoldable pub new_sim : E.Cpu → Bus V → List ℕ → Sim
  new_sim cpu bus input = record {
    cpu = cpu;
    bus = bus;
    step_debugger_enabled = false;
    instruction_completed = true;
    input = input;
    terminal = [];
  }

module _ {V : ViaApi} {E : Emulators V} where
  unfoldable pub show : Shown → Sim E → Sim E
  show x s = record s { terminal = s.terminal ++ (x ∷ []) }

  -- A read of the bus by the debugger.
  unfoldable pub look : ℕ → Sim E → Run (ℕ × Sim E)
  look addr s = do (data', bus) ← bus_read V addr s.bus; ok (data', record s { bus = bus })

  -- The loop of `print-stack`, from 0x100 + n - 1 down.
  unfoldable pub print_stack : ℕ → Sim E → Run (Sim E)
  unfolding look show
  print_stack zero s = ok s
  print_stack (suc n) s = do
    (data', s') ← look (0x100 + n) s
    print_stack n (show (stack_byte (0x100 + n) data') s')

  -- With no number nothing is shown.
  unfoldable pub peek_address : Option ℕ → Sim E → Run (Sim E)
  unfolding look show
  peek_address none s = ok s
  peek_address (some a) s = do (data', s') ← look a s; ok (show (peeked data') s')

  -- The string after `peek`, up to the end of the array.
  unfoldable pub peek : Bytes → Sim E → Run (Sim E)
  unfolding peek_address
  peek text s = scan_number host 16 (bytes_of 60 4 text) >>= λ address. peek_address address s

  -- Bit 2 of the status.
  unfoldable pub print_status : Sim E → Sim E
  unfolding show
  print_status s =
      if test_bit 2 (E.get_status s.cpu)
      then show interrupts_disabled s
      else show interrupts_enabled s

  unfoldable pub print_sp : Sim E → Run (Sim E)
  unfolding look show
  print_sp s = do
    (data', s') ← look (0x100 + E.get_stack_pointer s.cpu + 1) s
    ok (show (peeked data') (show (stack_pointer (0x100 + E.get_stack_pointer s.cpu)) s'))

  -- The branches of `scan`: 0 goes on with the program, -1 asks for another line.
  unfoldable pub answer : Request → Bytes → Sim E → Run (ℤ × Sim E)
  unfolding show
  answer asks_stack text s = do s' ← print_stack 0x100 s; ok (negsuc 0, s')
  answer asks_peek text s = do s' ← peek text s; ok (negsuc 0, s')
  answer asks_status text s = ok (negsuc 0, print_status s)
  answer asks_sp text s = do s' ← print_sp s; ok (negsuc 0, s')
  answer asks_a text s = ok (negsuc 0, show (register_value b'A' (E.get_acc s.cpu)) s)
  answer asks_x text s = ok (negsuc 0, show (register_value b'X' (E.get_x s.cpu)) s)
  answer asks_y text s = ok (negsuc 0, show (register_value b'Y' (E.get_y s.cpu)) s)
  answer asks_continue text s = ok (pos 0, s)
  answer asks_resume text s = ok (pos 0, record s { step_debugger_enabled = false })
  answer asks_nothing text s = ok (negsuc 0, s)

  unfoldable pub scan : Bytes → Sim E → Run (ℤ × Sim E)
  unfolding answer
  scan text s = answer (request text) text s

  -- The debugger's loop with `line` and `currentIndex`: the array is not cleared before its first line. `currentIndex` is a
  -- `uint8_t`, which would wrap after 255, but the store at index 64 is already out of bounds; the end of the
  -- input is not tested.
  unfoldable pub debugger : ℕ → Bytes → ℕ → Sim E → Run (Sim E)
  debugger zero text current_index s = fault out_of_fuel
  debugger (suc n) text current_index s =
      let (c, rest) = getchar s.input in
      let text' = poke text current_index c in
      let s' = record s { input = rest } in
      elim (ltb current_index line_size) [
        | false ↦ fault out_of_bounds
        | true ↦ elim (c == b'\n') [
          | false ↦ debugger n text' (current_index + 1) s'
          | true ↦ scan text' s' >>= λ r. elim (is_zero r.0) [
            | true ↦ ok r.1
            | false ↦ debugger n zeros 0 r.1
          ]
        ]
      ]

  -- A round for each character of the input, and those until the end of the array after the input's end.
  abbrev pub debugger_fuel : Sim E → ℕ
  debugger_fuel s = length s.input + (line_size + 1)

  -- The debugger is entered between instructions, at a `nop` or when it is on; `stack` is what the array
  -- of the line holds.
  unfoldable pub debug : Bytes → Sim E → Run (Sim E)
  unfolding debugger
  debug stack s =
      if s.instruction_completed && (same_word (E.mnemonic s.cpu) nop || s.step_debugger_enabled)
      then debugger (debugger_fuel s) stack 0 (record s { step_debugger_enabled = true })
      else ok s

  -- A round of the loop, and whether it goes on.
  unfoldable pub cycle : Bytes → Sim E → Run (Bool × Sim E)
  unfolding debug interrupt
  cycle stack s = do
    (cpu, bus) ← transfer V (E.tick s.cpu) s.bus
    (_, bus') ← transfer V (E.disassemble cpu) (record bus { via = E.via_tick bus.via })
    s' ← debug stack (record s { cpu = cpu; bus = bus' })
    let s″ = record s' { instruction_completed = E.opcode_cycle cpu == 0 }
    if same_word (E.mnemonic cpu) brk
        then ok (false, s″)
        else ok (true, record s″ { cpu = interrupt E (E.via_int s″.bus.via) s″.cpu })

  -- At most `n` rounds.
  unfoldable pub cycles : ℕ → Bytes → Sim E → Run (Sim E)
  cycles zero stack s = ok s
  cycles (suc n) stack s =
      cycle stack s >>= λ r. elim r.0 [ true ↦ cycles n stack r.1 | false ↦ ok r.1 ]
