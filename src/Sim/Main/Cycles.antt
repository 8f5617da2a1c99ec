-- ===== src/Sim/Main/Cycles.antt =====
-- The main loop: what no program on the processor, and nothing that is typed, can do.
use bit_computer.Common.{
  Bool, Bytes, Run, ap, arith, false, fault, if◌then◌else◌, ok, refl, subst, suc, true, zero, ℕ,
  ◌&&◌, ◌>>=◌, ◌||◌, ◌∙◌, ◌≡◌,
}
use bit_computer.Sim.Bus.{Bus, bus_read, bus_write}
use bit_computer.Sim.Bus.Session.{bus_read-rest, bus_write-Kept}
use bit_computer.Sim.Emulators.{Emulators, Transfer, done, fetch, store, transfer}
use bit_computer.Sim.Main.{Sim, brk, cycle, cycles, debug, debugger_fuel, nop, same_word}
use bit_computer.Sim.Main.Watch.{Keeps, Keeps-if, debugger-Keeps}
use bit_computer.Sim.Via.{ViaApi}

-- If the run ends well, then with such a value.
abbrev Yields : {A : Type 0} → (A → Type 0) → Run A → Type 0
Yields P (fault e) = Unit
Yields P (ok a) = P a

Yields-bind :
    {A B : Type 0} (P : A → Type 0) (Q : B → Type 0) (r : Run A) (f : A → Run B)
    → Yields P r
    → ((a : A) → P a → Yields Q (f a))
    → Yields Q (r >>= f)
Yields-bind P Q (fault e) f h k = tt
Yields-bind P Q (ok a) f h k = k a h

Yields-run : {A : Type 0} (P : A → Type 0) (r : Run A) → ((a : A) → r ≡ ok a → P a) → Yields P r
Yields-run P (fault e) h = tt
Yields-run P (ok a) h = h a refl

Yields-value : {A : Type 0} (P : A → Type 0) (r : Run A) (a : A) → Yields P r → r ≡ ok a → P a
Yields-value P r a h run = subst (λ x. Yields P x) run h

Yields-if :
    {A : Type 0} (P : A → Type 0) (b : Bool) (r r' : Run A)
    → Yields P r
    → Yields P r'
    → Yields P (if b then r else r')
Yields-if P true r r' h h' = h
Yields-if P false r r' h h' = h'

Yields-either :
    {A : Type 0} (P : A → Type 0) (b : Bool) (r r' : Run A)
    → Yields P r
    → Yields P r'
    → Yields P (elim b [ true ↦ r | false ↦ r' ])
Yields-either P true r r' h h' = h
Yields-either P false r r' h h' = h'

module _ {V : ViaApi} where
  -- The ROM is the same, and nothing has been taken from the input pipe of the adapter.
  abbrev pub Fixed : Bus V → Bus V → Type 0
  Fixed bus bus' = (bus'.rom ≡ bus.rom) × (bus'.um245.input ≡ bus.um245.input)

  Fixed-trans : (a b c : Bus V) → Fixed a b → Fixed b c → Fixed a c
  Fixed-trans a b c (rom, input) (rom', input') = (rom' ∙ rom, input' ∙ input)

  transfer-Fixed :
      {A : Type 0} (t : Transfer A) (start bus : Bus V)
      → Fixed start bus
      → Yields (λ r. Fixed start r.1) (transfer V t bus)
  unfolding transfer
  transfer-Fixed (done a) start bus h = h
  transfer-Fixed (fetch addr go_on) start bus h =
      Yields-bind (λ r. Fixed start r.1) _ (bus_read V addr bus) _
        (Yields-run _ (bus_read V addr bus) (λ r run.
          let (rom, input, _) = bus_read-rest V addr r.0 bus r.1 run in
          Fixed-trans start bus r.1 h (rom, input)))
        (λ r h'. transfer-Fixed (go_on r.0) start r.1 h')
  transfer-Fixed (store addr val rest) start bus h =
      Yields-bind (λ b. Fixed start b) _ (bus_write V addr val bus) _
        (Yields-run _ (bus_write V addr val bus) (λ b run.
          let (rom, input, _) = bus_write-Kept V addr val bus b run in
          Fixed-trans start bus b h (rom, input)))
        (λ b h'. transfer-Fixed rest start b h')

module _ {V : ViaApi} {E : Emulators V} where
  Yields-Keeps :
      (start : Bus V) (s : Sim E) (r : Run (Sim E))
      → Fixed start s.bus
      → Keeps s (λ t. t) r
      → Yields (λ (t : Sim E). Fixed start t.bus) r
  Yields-Keeps start s (fault e) h kept = tt
  Yields-Keeps start s (ok t) (rom, input) (_, _, rom', um, _, _) =
      (rom' ∙ rom, ap (λ u. u.input) um ∙ input)

  debug-Keeps : (stack : Bytes) (s : Sim E) → Keeps s (λ t. t) (debug stack s)
  unfolding debug
  debug-Keeps stack s =
      Keeps-if s (λ t. t)
        (s.instruction_completed && (same_word (E.mnemonic s.cpu) nop || s.step_debugger_enabled)) _
        (ok s)
        (debugger-Keeps (debugger_fuel s) stack 0 (record s { step_debugger_enabled = true }))
        (refl, refl, refl, refl, refl, omega arith)

  cycle-Fixed :
      (stack : Bytes) (start : Bus V) (s : Sim E)
      → Fixed start s.bus
      → Yields (λ (r : Bool × Sim E). Fixed start r.1.bus) (cycle stack s)
  unfolding cycle
  cycle-Fixed stack start s h =
      Yields-bind (λ r. Fixed start r.1) _ (transfer V (E.tick s.cpu) s.bus) _
        (transfer-Fixed (E.tick s.cpu) start s.bus h)
        (λ r h'.
          let ticked = record r.1 { via = E.via_tick r.1.via } in
          Yields-bind (λ r'. Fixed start r'.1) _ (transfer V (E.disassemble r.0) ticked) _
            (transfer-Fixed (E.disassemble r.0) start ticked h')
            (λ r' h″.
              let mid = record s { cpu = r.0; bus = r'.1 } in
              Yields-bind (λ (t : Sim E). Fixed start t.bus) _ (debug stack mid) _
                (Yields-Keeps start mid (debug stack mid) h″ (debug-Keeps stack mid))
                (λ t h‴. Yields-if _ (same_word (E.mnemonic r.0) brk) _ _ h‴ h‴)))

  cycles-Yields :
      (n : ℕ) (stack : Bytes) (start : Bus V) (s : Sim E)
      → Fixed start s.bus
      → Yields (λ (t : Sim E). Fixed start t.bus) (cycles n stack s)
  unfolding cycles
  cycles-Yields zero stack start s h = h
  cycles-Yields (suc n) stack start s h =
      Yields-bind (λ (r : Bool × Sim E). Fixed start r.1.bus) _ (cycle stack s) _
        (cycle-Fixed stack start s h)
        (λ r h'.
          Yields-either _ r.0 (cycles n stack r.1) (ok r.1) (cycles-Yields n stack start r.1 h') h')

  -- However many rounds the loop has made, whatever the program and whatever has been typed, the ROM is as
  -- it was and the processor has got nothing from the input pipe of the adapter.
  pub cycles-Fixed :
      (n : ℕ) (stack : Bytes) (s t : Sim E) → cycles n stack s ≡ ok t → Fixed s.bus t.bus
  cycles-Fixed n stack s t run =
      Yields-value (λ (u : Sim E). Fixed s.bus u.bus) (cycles n stack s) t
        (cycles-Yields n stack s.bus s (refl, refl)) run
