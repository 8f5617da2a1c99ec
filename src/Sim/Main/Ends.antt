-- ===== src/Sim/Main/Ends.antt =====
-- How the debugger's loop ends.
use native.Mathlib.Decide.{ℕ_discrete}
use bit_computer.Common.{
  ==_ne, Bytes, List, Run, [], arith, dec_lt, false, fault, is_zero, length, ltb, lt→ltb, ok,
  out_of_bounds, poke, refl, suc, true, zero, zeros, ℕ, ℤ, ◌&&◌, ◌+◌, ◌-◌, ◌<◌, ◌==◌, ◌>>=◌, ◌||◌,
  ◌∙◌, ◌∷◌, ◌≡◌, ◌≢◌, ◌≤◌,
}
use bit_computer.Sim.Emulators.{Emulators}
use bit_computer.Sim.Main.{
  Sim, debug, debugger, debugger_fuel, getchar, line_size, nop, request, same_word, scan,
}
use bit_computer.Sim.Main.Fuel.{InTime, InTime-either, InTime-if, answer-InTime}
use bit_computer.Sim.Main.Watch.{Keeps, scan-Keeps}
use bit_computer.Sim.Via.{ViaApi}

-- No line is complete any more.
abbrev pub NoNewline : List ℕ → Type 0
NoNewline [] = Unit
NoNewline (c ∷ cs) = (c ≢ b'\n') × NoNewline cs

module _ {V : ViaApi} {E : Emulators V} where
  -- The state with what is still to be typed.
  abbrev pub typing : List ℕ → Sim E → Sim E
  typing cs s = record s { input = cs }

  abbrev pub again : ℕ → ℤ × Sim E → Run (Sim E)
  again n r = elim (is_zero r.0) [ true ↦ ok r.1 | false ↦ debugger n zeros 0 r.1 ]

  debugger-full :
      (n : ℕ) (text : Bytes) (i : ℕ) (s : Sim E)
      → line_size ≤ i
      → debugger (suc n) text i s ≡ fault out_of_bounds
  unfolding debugger
  debugger-full n text i s h =
      (let e : ltb i line_size ≡ false = ground arith in rw (e, debugger) refl)

  -- A character that is no newline is stored, and so is the one that stands for the end of the input.
  pub debugger-char :
      (n : ℕ) (text : Bytes) (i c : ℕ) (cs : List ℕ) (s : Sim E)
      → i < line_size
      → c ≢ b'\n'
      → debugger (suc n) text i (typing (c ∷ cs) s)
        ≡ debugger n (poke text i c) (i + 1) (typing cs s)
  unfolding debugger getchar
  debugger-char n text i c cs s lt ne = rw (lt→ltb i line_size lt, ==_ne c 10 ne, debugger) refl

  debugger-eof :
      (n : ℕ) (text : Bytes) (i : ℕ) (s : Sim E)
      → i < line_size
      → debugger (suc n) text i (typing [] s) ≡ debugger n (poke text i 255) (i + 1) (typing [] s)
  unfolding debugger getchar
  debugger-eof n text i s lt = rw (lt→ltb i line_size lt, debugger) refl

  -- After the input's end the rest of the array is filled.
  debugger-at_end :
      (n : ℕ) (text : Bytes) (i : ℕ) (s : Sim E)
      → i ≤ line_size
      → line_size < i + n
      → debugger n text i (typing [] s) ≡ fault out_of_bounds
  debugger-at_end zero text i s h h' = absurd (omega arith)
  debugger-at_end (suc n) text i s h h' = elim (dec_lt i line_size) [
    | no full ↦ debugger-full n text i (typing [] s) (omega arith)
    | yes lt ↦
        debugger-eof n text i s lt
        ∙ debugger-at_end n (poke text i 255) (i + 1) s (omega arith) (omega arith)
  ]

  -- If no newline is left in the input, the debugger writes past the end of its line.
  pub debugger-NoNewline :
      (n : ℕ) (cs : List ℕ) (text : Bytes) (i : ℕ) (s : Sim E)
      → NoNewline cs
      → i ≤ line_size
      → length cs + line_size < n
      → debugger n text i (typing cs s) ≡ fault out_of_bounds
  unfolding length
  debugger-NoNewline n [] text i s plain h h' = debugger-at_end n text i s h (omega arith)
  debugger-NoNewline zero (c ∷ cs) text i s plain h h' = absurd (omega arith)
  debugger-NoNewline (suc n) (c ∷ cs) text i s (ne, plain) h h' = elim (dec_lt i line_size) [
    | no full ↦ debugger-full n text i (typing (c ∷ cs) s) (omega arith)
    | yes lt ↦
        debugger-char n text i c cs s lt ne
        ∙ debugger-NoNewline n cs (poke text i c) (i + 1) s plain (omega arith) (omega arith)
  ]

  -- What happens with a complete line: it is answered, and its answer may ask for another one.
  pub debugger-line :
      (n : ℕ) (text : Bytes) (i c : ℕ) (cs : List ℕ) (s : Sim E)
      → i < line_size
      → c ≡ b'\n'
      → debugger (suc n) text i (typing (c ∷ cs) s)
        ≡ (scan (poke text i c) (typing cs s) >>= again n)
  unfolding debugger getchar
  debugger-line n text i c cs s lt e =
      (let e' : (c == b'\n') ≡ true = ground arith in rw (lt→ltb i line_size lt, e', debugger) refl)

  -- The next line after an answer, for an answer that leaves so much to read.
  again-InTime : (n : ℕ) (r : ℤ × Sim E) → InTime (debugger n zeros 0 r.1) → InTime (again n r)
  again-InTime n r h = InTime-either (is_zero r.0) (ok r.1) (debugger n zeros 0 r.1) tt h

  scan_again-InTime :
      (n m : ℕ) (s : Sim E) (r : Run (ℤ × Sim E))
      → InTime r
      → Keeps s (λ (x : ℤ × Sim E). x.1) r
      → length s.input ≤ m
      → ((t : Sim E) → length t.input ≤ m → InTime (debugger n zeros 0 t))
      → InTime (r >>= again n)
  scan_again-InTime n m s (ok r) run kept h rest =
      (let (_, _, _, _, _, left) = kept in again-InTime n r (rest r.1 (omega arith)))
  scan_again-InTime n m s (fault e) run kept h rest = run

  -- The first round, for rounds that end in time after it.
  one_more-InTime :
      (n m : ℕ) (cs : List ℕ) (text : Bytes) (i : ℕ) (s : Sim E)
      → length cs ≤ m
      → i ≤ line_size
      → m + line_size < suc n
      → ((m' : ℕ) (text' : Bytes) (i' : ℕ) (t : Sim E)
          → length t.input ≤ m'
          → i' ≤ line_size
          → m' + line_size < n
          → InTime (debugger n text' i' t))
      → InTime (debugger (suc n) text i (typing cs s))
  unfolding length scan
  one_more-InTime n m [] text i s left h h' rest =
      rw (debugger-at_end (suc n) text i s h (omega arith)) tt
  one_more-InTime n m (c ∷ cs) text i s left h h' rest = elim (dec_lt i line_size) [
    | no full ↦ rw (debugger-full n text i (typing (c ∷ cs) s) (omega arith)) tt
    | yes lt ↦ elim (ℕ_discrete c b'\n') [
      | no ne ↦ rw (debugger-char n text i c cs s lt ne) (
          rest (m - 1) (poke text i c) (i + 1) (typing cs s) (omega arith) (omega arith)
            (omega arith))
      | yes e ↦ rw (debugger-line n text i c cs s lt e) (
          scan_again-InTime n (m - 1) (typing cs s) (scan (poke text i c) (typing cs s))
            (answer-InTime (request (poke text i c)) (poke text i c) (typing cs s))
            (scan-Keeps (poke text i c) (typing cs s)) (omega arith)
            (λ t left'. rest (m - 1) zeros 0 t left' (omega arith) (omega arith)))
    ]
  ]

  -- With a round for each character of the input and 65 more the debugger ends: it goes back to the
  -- program, or ends with a fault of its own.
  debugger-InTime :
      (n m : ℕ) (text : Bytes) (i : ℕ) (s : Sim E)
      → length s.input ≤ m
      → i ≤ line_size
      → m + line_size < n
      → InTime (debugger n text i s)
  debugger-InTime zero m text i s left h h' = absurd (omega arith)
  debugger-InTime (suc n) m text i s left h h' =
      one_more-InTime n m s.input text i s left h h' (debugger-InTime n)

  -- The rounds that the model grants to the debugger are enough.
  debug-InTime : (stack : Bytes) (s : Sim E) → InTime (debug stack s)
  unfolding debug
  debug-InTime stack s =
      InTime-if
        (s.instruction_completed && (same_word (E.mnemonic s.cpu) nop || s.step_debugger_enabled)) _
        (ok s)
        (debugger-InTime (debugger_fuel s) (length s.input) stack 0
          (record s { step_debugger_enabled = true }) (omega arith) (omega arith) (omega arith))
        tt
