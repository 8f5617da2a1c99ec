-- ===== src/Sim/Main/Resume.antt =====
-- How the debugger gives control back.
use bit_computer.Common.{
  ==_ne, Bytes, List, [], ap, append-nil, append_assoc, arith, if◌then◌else◌, inl, inr, length,
  negsuc, ok, poke, refl, starts_with, suc, sym, true, zeros, ℕ, ◌++◌, ◌+◌, ◌-◌, ◌<◌, ◌==◌, ◌>>=◌,
  ◌||◌, ◌∙◌, ◌∷◌, ◌≡◌, ◌⊎◌,
}
use bit_computer.Sim.Emulators.{Emulators}
use bit_computer.Sim.Main.{
  Shown, Sim, answer, asks_a, asks_continue, asks_resume, asks_x, asks_y, debug, debugger,
  debugger_fuel, line_size, nop, register_value, request, same_word, scan, show,
}
use bit_computer.Sim.Main.Ends.{NoNewline, again, debugger-char, debugger-line, typing}
use bit_computer.Sim.Via.{ViaApi}

-- The lines with a newline after each.
abbrev pub typed_lines : List (List ℕ) → List ℕ → List ℕ
typed_lines [] rest = rest
typed_lines (l ∷ ls) rest = l ++ (b'\n' ∷ typed_lines ls rest)

length-append : (xs ys : List ℕ) → length (xs ++ ys) ≡ length xs + length ys
unfolding length
length-append [] ys = omega arith
length-append (x ∷ xs) ys = (let rest = length-append xs ys in omega arith)

-- The array after the characters have been stored from index `i` on.
unfoldable fill : Bytes → ℕ → List ℕ → Bytes
fill text i [] = text
fill text i (c ∷ cs) = fill (poke text i c) (i + 1) cs

fill_before : (text : Bytes) (i k : ℕ) (cs : List ℕ) → k < i → fill text i cs k ≡ text k
unfolding fill
fill_before text i k [] h = refl
fill_before text i k (c ∷ cs) h =
    fill_before (poke text i c) (i + 1) k cs (omega arith) ∙ rw (==_ne i k (omega arith)) refl

-- The array of a line.
abbrev line_array : Bytes → List ℕ → Bytes
line_array text cs = poke (fill text 0 cs) (length cs) b'\n'

line_array-first : (text : Bytes) (c : ℕ) (cs : List ℕ) → line_array text (c ∷ cs) 0 ≡ c
unfolding fill length
line_array-first text c cs =
    rw (==_ne (suc (length cs)) 0 (omega arith)) (fill_before (poke text 0 c) 1 0 cs (omega arith))

-- The line fits with its newline, and has no other one.
pub record IsLine (l : List ℕ) : Type 0 where
  pub fits : length l < line_size
  pub plain : NoNewline l

-- A line that asks for a register: it begins with its letter.
pub record AsksRegister (l : List ℕ) : Type 0 where
  pub is_line : IsLine l
  pub letter : ℕ
  pub rest : List ℕ
  pub starts : l ≡ letter ∷ rest
  pub known : (letter ≡ b'a') ⊎ (letter ≡ b'x') ⊎ (letter ≡ b'y')

abbrev pub AllAskRegisters : List (List ℕ) → Type 0
AllAskRegisters [] = Unit
AllAskRegisters (l ∷ ls) = AsksRegister l × AllAskRegisters ls

request-a : (text : Bytes) → text 0 ≡ b'a' → request text ≡ asks_a
unfolding request starts_with
request-a text h = rw h refl

request-x : (text : Bytes) → text 0 ≡ b'x' → request text ≡ asks_x
unfolding request starts_with
request-x text h = rw h refl

request-y : (text : Bytes) → text 0 ≡ b'y' → request text ≡ asks_y
unfolding request starts_with
request-y text h = rw h refl

request-c : (text : Bytes) → text 0 ≡ b'c' → request text ≡ asks_continue
unfolding request starts_with
request-c text h = rw h refl

request-r : (text : Bytes) → text 0 ≡ b'r' → request text ≡ asks_resume
unfolding request starts_with
request-r text h = rw h refl

module _ {V : ViaApi} (E : Emulators V) where
  -- What is shown for a line that begins with the letter of a register.
  abbrev register_shown : List ℕ → E.Cpu → List Shown
  register_shown [] cpu = []
  register_shown (c ∷ cs) cpu =
      if c == b'a'
      then register_value b'A' (E.get_acc cpu) ∷ []
      else if c == b'x'
      then register_value b'X' (E.get_x cpu) ∷ []
      else register_value b'Y' (E.get_y cpu) ∷ []

  abbrev pub registers_shown : List (List ℕ) → E.Cpu → List Shown
  registers_shown [] cpu = []
  registers_shown (l ∷ ls) cpu = register_shown l cpu ++ registers_shown ls cpu

module _ {V : ViaApi} {E : Emulators V} where
  abbrev with_terminal : List Shown → Sim E → Sim E
  with_terminal shown s = record s { terminal = shown }

  -- A line is stored and answered, with any number of rounds that is enough.
  debugger-line_chars :
      (cs : List ℕ) (m n : ℕ) (text : Bytes) (i : ℕ) (rest : List ℕ) (s : Sim E)
      → NoNewline cs
      → i + length cs < line_size
      → m ≡ length cs + suc n
      → debugger m text i (typing (cs ++ (b'\n' ∷ rest)) s)
        ≡ (scan (poke (fill text i cs) (i + length cs) b'\n') (typing rest s) >>= again n)
  unfolding fill length
  debugger-line_chars [] m n text i rest s plain h e =
      let at : i ≡ i + 0 = omega arith in
      let more : m ≡ suc n = omega arith in
      ap (λ k. debugger k text i (typing (b'\n' ∷ rest) s)) more
      ∙ debugger-line n text i b'\n' rest s (omega arith) refl
      ∙ ap (λ j. scan (poke text j b'\n') (typing rest s) >>= again n) at
  debugger-line_chars (c ∷ cs) m n text i rest s (ne, plain) h e =
      let at : i + 1 + length cs ≡ i + suc (length cs) = omega arith in
      let more : m ≡ suc (length cs + suc n) = omega arith in
      ap (λ k. debugger k text i (typing (c ∷ cs ++ (b'\n' ∷ rest)) s)) more
      ∙ debugger-char (length cs + suc n) text i c (cs ++ (b'\n' ∷ rest)) s (omega arith) ne
      ∙ debugger-line_chars cs (length cs + suc n) n (poke text i c) (i + 1) rest s plain
          (omega arith) refl
      ∙ ap (λ j. scan (poke (fill (poke text i c) (i + 1) cs) j b'\n') (typing rest s) >>= again n)
          at

  debugger-IsLine :
      (l : List ℕ) (m : ℕ) (text : Bytes) (rest : List ℕ) (s : Sim E)
      → IsLine l
      → length l < m
      → debugger m text 0 (typing (l ++ (b'\n' ∷ rest)) s)
        ≡ (scan (line_array text l) (typing rest s) >>= again (m - length l - 1))
  debugger-IsLine l m text rest s fine enough =
      let zero_on : 0 + length l ≡ length l = omega arith in
      debugger-line_chars l m (m - length l - 1) text 0 rest s fine.plain
        (let fits = fine.fits in omega arith) (omega arith)
      ∙ ap (λ j. scan (poke (fill text 0 l) j b'\n') (typing rest s) >>= again (m - length l - 1))
          zero_on

  scan-register :
      (c : ℕ) (cs : List ℕ) (text : Bytes) (s : Sim E)
      → text 0 ≡ c
      → (c ≡ b'a') ⊎ (c ≡ b'x') ⊎ (c ≡ b'y')
      → scan text s ≡ ok (negsuc 0, with_terminal (s.terminal ++ register_shown E (c ∷ cs) s.cpu) s)
  unfolding scan answer show
  scan-register c cs text s at (inl e) = rw (request-a text (at ∙ e), e, scan) refl
  scan-register c cs text s at (inr (inl e)) = rw (request-x text (at ∙ e), e, scan) refl
  scan-register c cs text s at (inr (inr e)) = rw (request-y text (at ∙ e), e, scan) refl

  -- The line that gives control back, and whether the debugger stays on then.
  debugger-go :
      (l : List ℕ) (m : ℕ) (c : ℕ) (cs : List ℕ) (text : Bytes) (rest : List ℕ) (s : Sim E)
      → IsLine l
      → length l < m
      → l ≡ c ∷ cs
      → s.step_debugger_enabled ≡ true
      → (c ≡ b'c') ⊎ (c ≡ b'r')
      → debugger m text 0 (typing (l ++ (b'\n' ∷ rest)) s)
        ≡ ok (record (typing rest s) { step_debugger_enabled = c == b'c' })
  unfolding scan answer
  debugger-go l m c cs text rest s fine enough starts on which =
      let first : line_array text l 0 ≡ c =
        ap (λ x. line_array text x 0) starts ∙ line_array-first text c cs in
      debugger-IsLine l m text rest s fine enough ∙ elim which [
        | inl e ↦ rw (request-c (line_array text l) (first ∙ e), e, scan) (rw on refl)
        | inr e ↦ rw (request-r (line_array text l) (first ∙ e), e, scan) refl
      ]

  debugger-registers :
      (ls : List (List ℕ)) (l : List ℕ) (m c : ℕ) (cs : List ℕ) (text : Bytes) (rest : List ℕ)
      (s : Sim E)
      → AllAskRegisters ls
      → IsLine l
      → length (typed_lines ls (l ++ (b'\n' ∷ rest))) < m
      → l ≡ c ∷ cs
      → s.step_debugger_enabled ≡ true
      → (c ≡ b'c') ⊎ (c ≡ b'r')
      → debugger m text 0 (typing (typed_lines ls (l ++ (b'\n' ∷ rest))) s)
        ≡ ok (record s {
          input = rest;
          step_debugger_enabled = c == b'c';
          terminal = s.terminal ++ registers_shown E ls s.cpu;
        })
  unfolding length
  debugger-registers [] l m c cs text rest s asks fine enough starts on which =
      debugger-go l m c cs text rest s fine
        (let all = length-append l (b'\n' ∷ rest) in omega arith) starts on which
      ∙ ap (λ t. ok (record s { input = rest; step_debugger_enabled = c == b'c'; terminal = t }))
          (sym (append-nil s.terminal))
  debugger-registers (a ∷ ls) l m c cs text rest s (ask, asks) fine enough starts on which =
      let later = typed_lines ls (l ++ (b'\n' ∷ rest)) in
      let all = length-append a (b'\n' ∷ later) in
      let first : line_array text a 0 ≡ ask.letter =
        ap (λ x. line_array text x 0) ask.starts ∙ line_array-first text ask.letter ask.rest in
      let shown = s.terminal ++ register_shown E (ask.letter ∷ ask.rest) s.cpu in
      debugger-IsLine a m text later s ask.is_line (omega arith)
      ∙ ap (λ r. r >>= again (m - length a - 1))
          (scan-register ask.letter ask.rest (line_array text a) (typing later s) first ask.known)
      ∙ debugger-registers ls l (m - length a - 1) c cs zeros rest (with_terminal shown s) asks fine
          (omega arith) starts on which
      ∙ ap (λ t. ok (record s { input = rest; step_debugger_enabled = c == b'c'; terminal = t }))
          (append_assoc s.terminal (register_shown E (ask.letter ∷ ask.rest) s.cpu)
              (registers_shown E ls s.cpu)
            ∙ ap (λ x. s.terminal ++ (register_shown E x s.cpu ++ registers_shown E ls s.cpu))
                (sym ask.starts))

  debug-debugger :
      (stack : Bytes) (s : Sim E)
      → s.instruction_completed ≡ true
      → (same_word (E.mnemonic s.cpu) nop || s.step_debugger_enabled) ≡ true
      → debug stack s
        ≡ debugger (debugger_fuel s) stack 0 (record s { step_debugger_enabled = true })
  unfolding debug
  debug-debugger stack s completed enters = rw (debug, enters) (rw completed refl)

  -- Where the debugger is entered, let lines of at most 63 characters be typed that begin with a, x or y, and then one that
  -- begins with c or r. Then `debug` shows the registers of the first lines in their order, takes these lines and the
  -- last one from the input and no more, and gives control back with nothing else changed but that the
  -- debugger is on for the next instruction after c, and off after r.
  pub debug-registers :
      (ls : List (List ℕ)) (l : List ℕ) (c : ℕ) (cs : List ℕ) (stack : Bytes) (rest : List ℕ)
      (s : Sim E)
      → AllAskRegisters ls
      → IsLine l
      → l ≡ c ∷ cs
      → (c ≡ b'c') ⊎ (c ≡ b'r')
      → s.instruction_completed ≡ true
      → (same_word (E.mnemonic s.cpu) nop || s.step_debugger_enabled) ≡ true
      → debug stack (typing (typed_lines ls (l ++ (b'\n' ∷ rest))) s)
        ≡ ok (record s {
          input = rest;
          step_debugger_enabled = c == b'c';
          terminal = s.terminal ++ registers_shown E ls s.cpu;
        })
  debug-registers ls l c cs stack rest s asks fine starts which completed enters =
      let typed = typing (typed_lines ls (l ++ (b'\n' ∷ rest))) s in
      debug-debugger stack typed completed enters
      ∙ debugger-registers ls l (debugger_fuel typed) c cs stack rest
          (record s { step_debugger_enabled = true }) asks fine (omega arith) starts refl which
