-- ===== src/Sim/Bus/Session.antt =====
-- Sequences of accesses to the bus, as the processor makes them.
use bit_computer.Common.{
  Bool-cases, Bytes, List, Run, [], ap, arith, bind-ok, false, if◌then◌else◌, inl, inr, ltb, ok,
  ok-injective, poke, refl, sym, true, ℕ, ◌>>=◌, ◌∙◌, ◌∷◌, ◌≡◌,
}
use bit_computer.Sim.Bus.{Bus, between, bus_read, bus_write, ram_length}
use bit_computer.Sim.Um245.{um245_length, um245_start, um245_write}
use bit_computer.Sim.Um245.Edge.{um245_write-input}
use bit_computer.Sim.Via.{ViaApi}

pub data Access : Type 0 where
  reads : ℕ → Access
  writes : ℕ → ℕ → Access

module _ (V : ViaApi) where
  unfoldable pub access : Access → Bus V → Run (Bus V)
  access (reads a) bus = do (_, bus') ← bus_read V a bus; ok bus'
  access (writes a v) bus = bus_write V a v bus

  -- The accesses one by one, until one ends the simulator.
  unfoldable pub session : List Access → Bus V → Run (Bus V)
  session [] bus = ok bus
  session (x ∷ xs) bus = access x bus >>= session xs

-- The RAM alone: what a byte of it holds after the accesses.
unfoldable pub ram_after : List Access → Bytes → Bytes
ram_after [] ram = ram
ram_after (reads a ∷ xs) ram = ram_after xs ram
ram_after (writes a v ∷ xs) ram = ram_after xs (if ltb a ram_length then poke ram a v else ram)

pub adapter_address : (a : ℕ) → between a um245_start um245_length ≡ true → a ≡ um245_start
unfolding between
adapter_address a h = ground (arith, h)

module _ (V : ViaApi) where
  pub bus_read-rest :
      (a x : ℕ) (bus bus' : Bus V)
      → bus_read V a bus ≡ ok (x, bus')
      → (bus'.rom ≡ bus.rom) × (bus'.um245.input ≡ bus.um245.input) × (bus'.ram ≡ bus.ram)
  unfolding bus_read
  bus_read-rest a x bus bus' h = ground (arith, h)

  pub bus_write-adapter :
      (a v : ℕ) (bus : Bus V)
      → between a um245_start um245_length ≡ true
      → bus_write V a v bus ≡ (
          um245_write V um245_start v bus.um245 bus.via >>= λ r.
          ok (record bus { um245 = r.0; via = r.1 }))
  unfolding bus_write
  bus_write-adapter a v bus h = rw (adapter_address a h) refl

  bus_write-elsewhere :
      (a v : ℕ) (bus bus' : Bus V)
      → between a um245_start um245_length ≡ false
      → bus_write V a v bus ≡ ok bus'
      → (bus'.rom ≡ bus.rom)
        × (bus'.um245.input ≡ bus.um245.input)
        × (bus'.ram ≡ (if ltb a ram_length then poke bus.ram a v else bus.ram))
  unfolding bus_write between
  bus_write-elsewhere a v bus bus' h run = ground (arith, h, run)

  pub bus_write-Kept :
      (a v : ℕ) (bus bus' : Bus V)
      → bus_write V a v bus ≡ ok bus'
      → (bus'.rom ≡ bus.rom)
        × (bus'.um245.input ≡ bus.um245.input)
        × (bus'.ram ≡ (if ltb a ram_length then poke bus.ram a v else bus.ram))
  bus_write-Kept a v bus bus' run = elim (Bool-cases (between a um245_start um245_length)) [
    | inr elsewhere ↦ bus_write-elsewhere a v bus bus' elsewhere run
    | inl here ↦
        let (r, sent, same) = um245_write-input V v bus.um245 bus.via in
        let done : Path (Run (Bus V)) (ok (record bus { um245 = r.0; via = r.1 })) (ok bus') =
          sym (bus_write-adapter a v bus here ∙ rw sent refl) ∙ run in
        let e = ok-injective _ _ done in
        (
          sym (ap (λ b. b.rom) e),
          sym (ap (λ b. b.um245.input) e) ∙ same,
          sym (ap (λ b. b.ram) e) ∙ rw (adapter_address a here) refl,
        )
  ]

  -- Over any sequence of accesses that does not end the simulator, the ROM is unchanged, no answer of
  -- the input pipe is used up, and the RAM holds what the writes to its addresses put there.
  pub session-rest :
      (xs : List Access) (bus bus' : Bus V)
      → session V xs bus ≡ ok bus'
      → (bus'.rom ≡ bus.rom)
        × (bus'.um245.input ≡ bus.um245.input)
        × (bus'.ram ≡ ram_after xs bus.ram)
  unfolding session access ram_after
  session-rest [] bus bus' run = ground (arith, run)
  session-rest (reads a ∷ xs) bus bus' run =
      let (mid, first, rest) = bind-ok (access V (reads a) bus) (session V xs) bus' run in
      let (r, step, last) = bind-ok (bus_read V a bus) (λ r. ok r.1) mid first in
      let (rom, input, ram) =
        bus_read-rest a r.0 bus mid (step ∙ ap (λ m. ok (r.0, m)) (ok-injective _ _ last)) in
      let (rom', input', ram') = session-rest xs mid bus' rest in
      (rom' ∙ rom, input' ∙ input, ram' ∙ ap (ram_after xs) ram)
  session-rest (writes a v ∷ xs) bus bus' run =
      let (mid, step, rest) = bind-ok (bus_write V a v bus) (session V xs) bus' run in
      let (rom, input, ram) = bus_write-Kept a v bus mid step in
      let (rom', input', ram') = session-rest xs mid bus' rest in
      (rom' ∙ rom, input' ∙ input, ram' ∙ ap (ram_after xs) ram)
