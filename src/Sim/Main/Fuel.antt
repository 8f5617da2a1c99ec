-- ===== src/Sim/Main/Fuel.antt =====
-- What one line of the debugger asks for ends by itself.
use bit_computer.Common.{
  Bool, Bytes, Fault, Library, List, Option, Run, [], arith, bytes_of, digit, exited, false, fault,
  host, if◌then◌else◌, indeterminate, negsuc, none, null_pointer, ok, out_of_bounds, out_of_fuel,
  scan_digits, scan_number, scan_prefixed, scan_signed, skip_space, some, suc, true, zero, ℕ, ℤ,
  ◌&&◌, ◌*◌, ◌+◌, ◌==◌, ◌>>=◌, ◌||◌, ◌∷◌,
}
use bit_computer.Sim.Bus.{Bus, bus_read}
use bit_computer.Sim.Emulators.{Emulators}
use bit_computer.Sim.Main.{
  Request, Sim, answer, asks_a, asks_continue, asks_nothing, asks_peek, asks_resume, asks_sp,
  asks_stack, asks_status, asks_x, asks_y, look, peek, peek_address, print_sp, print_stack,
}
use bit_computer.Sim.Via.{ViaApi}

-- The faults of the code itself.
abbrev IsOwn : Fault → Type 0
IsOwn out_of_bounds = Unit
IsOwn null_pointer = Unit
IsOwn indeterminate = Unit
IsOwn exited = Unit
IsOwn out_of_fuel = ⊥

-- The run does not need more rounds than it is granted.
abbrev pub InTime : {A : Type 0} → Run A → Type 0
InTime (fault e) = IsOwn e
InTime (ok a) = Unit

InTime-bind :
    {A B : Type 0} (r : Run A) (f : A → Run B)
    → InTime r
    → ((a : A) → InTime (f a))
    → InTime (r >>= f)
InTime-bind (ok a) f h k = k a
InTime-bind (fault e) f h k = h

pub InTime-either :
    {A : Type 0} (b : Bool) (r r' : Run A)
    → InTime r
    → InTime r'
    → InTime (elim b [ true ↦ r | false ↦ r' ])
InTime-either true r r' h h' = h
InTime-either false r r' h h' = h'

pub InTime-if :
    {A : Type 0} (b : Bool) (r r' : Run A) → InTime r → InTime r' → InTime (if b then r else r')
InTime-if true r r' h h' = h
InTime-if false r r' h h' = h'

some_digit :
    {A : Type 0} (d : Option ℕ) (f : ℕ → Run A) (r : Run A)
    → ((x : ℕ) → InTime (f x))
    → InTime r
    → InTime (elim d [ some x ↦ f x | none ↦ r ])
some_digit (some x) f r h h' = h x
some_digit none f r h h' = h'

scan_digits-InTime :
    (base : ℕ) (any : Bool) (value : ℕ) (cs : List ℕ) → InTime (scan_digits base any value cs)
unfolding scan_digits
scan_digits-InTime base any value [] = tt
scan_digits-InTime base any value (c ∷ cs) =
    some_digit (digit base c) _ _ (λ d. scan_digits-InTime base true (value * base + d) cs) tt

scan_prefixed-InTime : (base : ℕ) (cs : List ℕ) → InTime (scan_prefixed base cs)
unfolding scan_prefixed
scan_prefixed-InTime base [] = tt
scan_prefixed-InTime base (c ∷ []) = scan_digits-InTime base false 0 (c ∷ [])
scan_prefixed-InTime base (c ∷ c' ∷ cs) =
    InTime-if ((base == 16) && (c == b'0') && ((c' == b'x') || (c' == b'X')))
      (scan_digits base false 0 cs) (scan_digits base false 0 (c ∷ c' ∷ cs))
      (scan_digits-InTime base false 0 cs) (scan_digits-InTime base false 0 (c ∷ c' ∷ cs))

scan_signed-InTime : (l : Library) (base : ℕ) (cs : List ℕ) → InTime (scan_signed l base cs)
unfolding scan_signed
scan_signed-InTime l base [] = tt
scan_signed-InTime l base (c ∷ cs) =
    InTime-if (c == b'-') _ _
      (InTime-bind (scan_prefixed base cs) _ (scan_prefixed-InTime base cs) (λ v. tt))
      (InTime-if (c == b'+') _ _ (scan_prefixed-InTime base cs)
        (scan_prefixed-InTime base (c ∷ cs)))

scan_number-InTime : (l : Library) (base : ℕ) (cs : List ℕ) → InTime (scan_number l base cs)
unfolding scan_number
scan_number-InTime l base cs =
    InTime-bind (scan_signed l base (skip_space cs)) _ (scan_signed-InTime l base (skip_space cs))
      (λ v. tt)

bus_read-InTime : {V : ViaApi} (a : ℕ) (bus : Bus V) → InTime (bus_read V a bus)
unfolding bus_read
bus_read-InTime a bus = ground arith

module _ {V : ViaApi} {E : Emulators V} where
  look-InTime : (a : ℕ) (s : Sim E) → InTime (look a s)
  unfolding look
  look-InTime a s = InTime-bind (bus_read V a s.bus) _ (bus_read-InTime a s.bus) (λ r. tt)

  print_stack-InTime : (n : ℕ) (s : Sim E) → InTime (print_stack n s)
  unfolding print_stack
  print_stack-InTime zero s = tt
  print_stack-InTime (suc n) s =
      InTime-bind (look (0x100 + n) s) _ (look-InTime (0x100 + n) s) (λ r. print_stack-InTime n _)

  peek_address-InTime : (s : Sim E) (a : Option ℕ) → InTime (peek_address a s)
  unfolding peek_address
  peek_address-InTime s none = tt
  peek_address-InTime s (some a) = InTime-bind (look a s) _ (look-InTime a s) (λ r. tt)

  abbrev answered : ℤ → Sim E → Run (ℤ × Sim E)
  answered x t = ok (x, t)

  answers-InTime : (r : Run (Sim E)) → InTime r → InTime (r >>= λ t. answered (negsuc 0) t)
  answers-InTime r h = InTime-bind r _ h (λ t. tt)

  pub answer-InTime : (x : Request) (text : Bytes) (s : Sim E) → InTime (answer x text s)
  unfolding answer peek print_sp
  answer-InTime asks_stack text s =
      answers-InTime (print_stack 0x100 s) (print_stack-InTime 0x100 s)
  answer-InTime asks_peek text s = answers-InTime (peek text s) (
      InTime-bind (scan_number host 16 (bytes_of 60 4 text)) _
        (scan_number-InTime host 16 (bytes_of 60 4 text)) (peek_address-InTime s))
  answer-InTime asks_status text s = tt
  answer-InTime asks_sp text s =
      answers-InTime (print_sp s)
        (InTime-bind (look (0x100 + E.get_stack_pointer s.cpu + 1) s) _ (look-InTime _ s) (λ r. tt))
  answer-InTime asks_a text s = tt
  answer-InTime asks_x text s = tt
  answer-InTime asks_y text s = tt
  answer-InTime asks_continue text s = tt
  answer-InTime asks_resume text s = tt
  answer-InTime asks_nothing text s = tt
