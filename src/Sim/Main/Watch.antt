-- ===== src/Sim/Main/Watch.antt =====
-- What the debugger can change.
use bit_computer.Common.{
  Bool, Bool-cases, Bytes, List, Option, Run, [], arith, bytes_of, false, fault, host,
  if◌then◌else◌, inl, inr, is_zero, length, ltb, negsuc, none, ok, poke, refl, scan_number, some,
  suc, true, zero, zeros, ℕ, ℤ, ◌+◌, ◌==◌, ◌>>=◌, ◌∙◌, ◌∷◌, ◌≡◌, ◌≤◌,
}
use bit_computer.Sim.Bus.{Bus, bus_read}
use bit_computer.Sim.Emulators.{Emulators}
use bit_computer.Sim.Main.{
  Request, Sim, answer, asks_a, asks_continue, asks_nothing, asks_peek, asks_resume, asks_sp,
  asks_stack, asks_status, asks_x, asks_y, debugger, getchar, line_size, look, peek, peek_address,
  peeked, print_sp, print_stack, print_status, request, scan, show, stack_byte, stack_pointer,
}
use bit_computer.Sim.Via.{ViaApi}

getchar_shorter : (cs : List ℕ) → length (getchar cs).1 ≤ length cs
unfolding getchar length
getchar_shorter [] = omega arith
getchar_shorter (c ∷ cs) = omega arith

module _ {V : ViaApi} {E : Emulators V} where
  -- The processor, the memories, the adapter with its pipes and the state of the loop are the same, and
  -- there is no more to read than before.
  abbrev Untouched : Sim E → Sim E → Type 0
  Untouched s t =
      (t.cpu ≡ s.cpu)
      × (t.bus.ram ≡ s.bus.ram)
      × (t.bus.rom ≡ s.bus.rom)
      × (t.bus.um245 ≡ s.bus.um245)
      × (t.instruction_completed ≡ s.instruction_completed)
      × (length t.input ≤ length s.input)

  Untouched-refl : (s : Sim E) → Untouched s s
  Untouched-refl s = (refl, refl, refl, refl, refl, omega arith)

  Untouched-trans : (s t u : Sim E) → Untouched s t → Untouched t u → Untouched s u
  Untouched-trans s t u (cpu, ram, rom, um, at, left) (cpu', ram', rom', um', at', left') =
      (cpu' ∙ cpu, ram' ∙ ram, rom' ∙ rom, um' ∙ um, at' ∙ at, omega arith)

  -- If the run ends well then all that is the same.
  abbrev pub Keeps : {A : Type 0} → Sim E → (A → Sim E) → Run A → Type 0
  Keeps s state (fault e) = Unit
  Keeps s state (ok a) = Untouched s (state a)

  Keeps-trans :
      {A : Type 0} (s t : Sim E) (state : A → Sim E) (r : Run A)
      → Untouched s t
      → Keeps t state r
      → Keeps s state r
  Keeps-trans s t state (fault e) first then_rest = tt
  Keeps-trans s t state (ok a) first then_rest = Untouched-trans s t (state a) first then_rest

  Keeps-bind :
      {A B : Type 0} (s : Sim E) (p : A → Sim E) (q : B → Sim E) (r : Run A) (f : A → Run B)
      → Keeps s p r
      → ((a : A) → Keeps (p a) q (f a))
      → Keeps s q (r >>= f)
  Keeps-bind s p q (fault e) f first rest = tt
  Keeps-bind s p q (ok a) f first rest = Keeps-trans s (p a) q (f a) first (rest a)

  pub Keeps-if :
      {A : Type 0} (s : Sim E) (p : A → Sim E) (b : Bool) (r r' : Run A)
      → Keeps s p r
      → Keeps s p r'
      → Keeps s p (if b then r else r')
  Keeps-if s p true r r' h h' = h
  Keeps-if s p false r r' h h' = h'

  -- A run that gives no state.
  Keeps-any : {A : Type 0} (s : Sim E) (r : Run A) → Keeps s (λ a. s) r
  Keeps-any s (fault e) = tt
  Keeps-any s (ok a) = Untouched-refl s

  bus_read-via :
      (a : ℕ) (s : Sim E) → Keeps s (λ (r : ℕ × Bus V). record s { bus = r.1 }) (bus_read V a s.bus)
  unfolding bus_read
  bus_read-via a s = ground arith

  look-Keeps : (a : ℕ) (s : Sim E) → Keeps s (λ (r : ℕ × Sim E). r.1) (look a s)
  unfolding look
  look-Keeps a s =
      Keeps-bind s (λ (r : ℕ × Bus V). record s { bus = r.1 }) (λ (r : ℕ × Sim E). r.1)
        (bus_read V a s.bus) (λ r. ok (r.0, record s { bus = r.1 })) (bus_read-via a s)
        (λ r. Untouched-refl (record s { bus = r.1 }))

  print_stack-Keeps : (n : ℕ) (s : Sim E) → Keeps s (λ t. t) (print_stack n s)
  unfolding print_stack show
  print_stack-Keeps zero s = Untouched-refl s
  print_stack-Keeps (suc n) s =
      Keeps-bind s (λ (r : ℕ × Sim E). r.1) (λ t. t) (look (0x100 + n) s)
        (λ r. print_stack n (show (stack_byte (0x100 + n) r.0) r.1)) (look-Keeps (0x100 + n) s)
        (λ r. print_stack-Keeps n (show (stack_byte (0x100 + n) r.0) r.1))

  peek_address-Keeps : (s : Sim E) (a : Option ℕ) → Keeps s (λ t. t) (peek_address a s)
  unfolding peek_address show
  peek_address-Keeps s none = Untouched-refl s
  peek_address-Keeps s (some a) =
      Keeps-bind s (λ (r : ℕ × Sim E). r.1) (λ t. t) (look a s) (λ r. ok (show (peeked r.0) r.1))
        (look-Keeps a s) (λ r. Untouched-refl r.1)

  peek-Keeps : (text : Bytes) (s : Sim E) → Keeps s (λ t. t) (peek text s)
  unfolding peek
  peek-Keeps text s =
      Keeps-bind s (λ a. s) (λ t. t) (scan_number host 16 (bytes_of 60 4 text))
        (λ a. peek_address a s) (Keeps-any s (scan_number host 16 (bytes_of 60 4 text)))
        (peek_address-Keeps s)

  print_sp-Keeps : (s : Sim E) → Keeps s (λ t. t) (print_sp s)
  unfolding print_sp show
  print_sp-Keeps s =
      let top = 0x100 + E.get_stack_pointer s.cpu in
      Keeps-bind s (λ (r : ℕ × Sim E). r.1) (λ t. t) (look (top + 1) s)
        (λ r. ok (show (peeked r.0) (show (stack_pointer top) r.1))) (look-Keeps (top + 1) s)
        (λ r. Untouched-refl r.1)

  answers-Keeps :
      (s : Sim E) (r : Run (Sim E))
      → Keeps s (λ t. t) r
      → Keeps s (λ (x : ℤ × Sim E). x.1) (r >>= λ t. ok (negsuc 0, t))
  answers-Keeps s r h =
      Keeps-bind s (λ t. t) (λ (x : ℤ × Sim E). x.1) r (λ t. ok (negsuc 0, t)) h
        (λ t. Untouched-refl t)

  print_status-Untouched : (s : Sim E) → Untouched s (print_status s)
  unfolding print_status show
  print_status-Untouched s = ground arith

  answer-Keeps :
      (x : Request) (text : Bytes) (s : Sim E) → Keeps s (λ (r : ℤ × Sim E). r.1) (answer x text s)
  unfolding answer show
  answer-Keeps asks_stack text s = answers-Keeps s (print_stack 0x100 s) (print_stack-Keeps 0x100 s)
  answer-Keeps asks_peek text s = answers-Keeps s (peek text s) (peek-Keeps text s)
  answer-Keeps asks_status text s = print_status-Untouched s
  answer-Keeps asks_sp text s = answers-Keeps s (print_sp s) (print_sp-Keeps s)
  answer-Keeps asks_a text s = Untouched-refl s
  answer-Keeps asks_x text s = Untouched-refl s
  answer-Keeps asks_y text s = Untouched-refl s
  answer-Keeps asks_continue text s = Untouched-refl s
  answer-Keeps asks_resume text s = Untouched-refl s
  answer-Keeps asks_nothing text s = Untouched-refl s

  pub scan-Keeps : (text : Bytes) (s : Sim E) → Keeps s (λ (r : ℤ × Sim E). r.1) (scan text s)
  unfolding scan
  scan-Keeps text s = answer-Keeps (request text) text s

  getchar-Untouched : (s : Sim E) → Untouched s (record s { input = (getchar s.input).1 })
  getchar-Untouched s = (refl, refl, refl, refl, refl, getchar_shorter s.input)

  -- After a line the debugger ends or takes the next one.
  answered-Keeps :
      (n : ℕ) (r : ℤ × Sim E)
      → Keeps r.1 (λ t. t) (debugger n zeros 0 r.1)
      → Keeps r.1 (λ t. t) (elim (is_zero r.0) [ true ↦ ok r.1 | false ↦ debugger n zeros 0 r.1 ])
  answered-Keeps n r rest = elim (Bool-cases (is_zero r.0)) [
    | inl e ↦ rw e (Untouched-refl r.1)
    | inr e ↦ rw e rest
  ]

  -- The debugger, however long it runs and whatever is typed, changes nothing of the computer but the 6522,
  -- which it may read.
  pub debugger-Keeps :
      (n : ℕ) (text : Bytes) (i : ℕ) (s : Sim E) → Keeps s (λ t. t) (debugger n text i s)
  unfolding debugger
  debugger-Keeps zero text i s = tt
  debugger-Keeps (suc n) text i s =
      let (c, rest) = getchar s.input in
      let text' = poke text i c in
      let s' = record s { input = rest } in
      elim (Bool-cases (ltb i line_size)) [
        | inr e ↦ rw (e, debugger) tt
        | inl e ↦ elim (Bool-cases (c == b'\n')) [
          | inr e' ↦
              rw (e, e', debugger)
                (Keeps-trans s s' (λ t. t) (debugger n text' (i + 1) s') (getchar-Untouched s)
                  (debugger-Keeps n text' (i + 1) s'))
          | inl e' ↦
              rw (e, e', debugger)
                (Keeps-bind s (λ (r : ℤ × Sim E). r.1) (λ t. t) (scan text' s')
                  (λ r. elim (is_zero r.0) [ true ↦ ok r.1 | false ↦ debugger n zeros 0 r.1 ])
                  (Keeps-trans s s' (λ (r : ℤ × Sim E). r.1) (scan text' s') (getchar-Untouched s)
                    (scan-Keeps text' s'))
                  (λ r. answered-Keeps n r (debugger-Keeps n zeros 0 r.1)))
        ]
      ]
