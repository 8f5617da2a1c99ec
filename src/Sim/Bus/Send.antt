-- ===== src/Sim/Bus/Send.antt =====
-- A driver that sends bytes through port B and the write line of port A.
use bit_computer.Common.{
  List, Returns, [], append-nil, append_assoc, false, ok, refl, sym, true, ℕ, ◌++◌, ◌∙◌, ◌∷◌, ◌≡◌,
}
use bit_computer.Sim.Bus.{Bus, between, bus_write}
use bit_computer.Sim.Bus.Session.{Access, access, bus_write-adapter, session, writes}
use bit_computer.Sim.Um245.{pipe_write, test_bit, um245_start, wants_write}
use bit_computer.Sim.Um245.Edge.{lowered, raised, um245_write-high, um245_write-low}
use bit_computer.Sim.Via.{PortB, ViaApi, via6522_start, via_reg_port_b}

module _ (V : ViaApi) where
  -- The bus after a byte has been sent.
  abbrev sent : ℕ → Bus V → Bus V
  sent d bus =
      let (b, via) = V.via_read (V.via_write bus.via via_reg_port_b d) via_reg_port_b in
      record bus { um245 = pipe_write (raised V (lowered V bus.um245)) b; via = via }

  data_write :
      (d : ℕ) (bus : Bus V)
      → bus_write V via6522_start d bus
        ≡ ok (record bus { via = V.via_write bus.via via_reg_port_b d })
  unfolding bus_write between
  data_write d bus = refl

  low_write :
      (low : ℕ) (bus : Bus V)
      → test_bit 7 low ≡ false
      → bus_write V um245_start low bus ≡ ok (record bus { um245 = lowered V bus.um245 })
  unfolding between
  low_write low bus l =
      bus_write-adapter V um245_start low bus refl
      ∙ rw (um245_write-low V low bus.um245 bus.via l) refl

  high_write :
      (high : ℕ) (bus : Bus V)
      → test_bit 7 high ≡ true
      → bus_write V um245_start high (record bus { um245 = lowered V bus.um245 })
        ≡ ok (record bus {
          um245 = pipe_write (raised V (lowered V bus.um245)) (V.via_read bus.via via_reg_port_b).0;
          via = (V.via_read bus.via via_reg_port_b).1;
        })
  unfolding between lowered wants_write
  high_write high bus h =
      bus_write-adapter V um245_start high (record bus { um245 = lowered V bus.um245 }) refl
      ∙ rw (um245_write-high V high (lowered V bus.um245) bus.via h) refl

module _ {V : ViaApi} (P : PortB V) (low high : ℕ) where
  -- For each byte: the byte itself, then a rising edge on the write line.
  unfoldable pub send_bytes : List ℕ → List Access
  send_bytes [] = []
  send_bytes (d ∷ ds) =
      writes via6522_start d ∷ writes um245_start low ∷ writes um245_start high ∷ send_bytes ds

  -- While port B is an output, and `low` and `high` have bit 7 clear and set, the accesses that send
  -- the bytes do not fault, the pipe is given exactly these bytes in their order, and port B is an
  -- output still.
  pub session-send_bytes :
      (ds : List ℕ) (bus : Bus V)
      → test_bit 7 low ≡ false
      → test_bit 7 high ≡ true
      → P.IsOutput bus.via
      → Returns
          (session V (send_bytes ds) bus)
          (λ bus'. (bus'.um245.output ≡ bus.um245.output ++ ds) × P.IsOutput bus'.via)
  unfolding session access send_bytes pipe_write lowered raised
  session-send_bytes [] bus l h out = (bus, refl, (sym (append-nil _), out))
  session-send_bytes (d ∷ ds) bus l h out =
      let via₁ = V.via_write bus.via via_reg_port_b d in
      let (bus', run, (output, out')) =
        session-send_bytes ds (sent V d bus) l h
          (P.read_keeps via₁ (P.write_keeps bus.via d out)) in
      (
        bus',
        rw
            (
              data_write V d bus,
              low_write V low (record bus { via = via₁ }) l,
              high_write V high (record bus { via = via₁ }) h,
            )
            run,
        (
          output ∙ rw (P.read-write bus.via d out) (append_assoc bus.um245.output (d ∷ []) ds),
          out',
        ),
      )
