-- ===== src/Sim/Um245/Edge.antt =====
-- `Um245_Write` by the edges of the write line.
use bit_computer.Common.{
  Bool-cases, Returns, false, if◌then◌else◌, inl, inr, ok, refl, true, ℕ, ◌≡◌,
}
use bit_computer.Sim.Um245.{
  Um245, Um245Status, pipe_write, read_high, read_low, test_bit, um245_start, um245_write,
  undefined_state, update_state, wants_read, wants_write, write_high, write_low,
}
use bit_computer.Sim.Via.{ViaApi, via_reg_port_b}

-- The direction bit of a read is overwritten by that of a write.
reads_never_low : (s : Um245Status) → wants_read s write_low ≡ false
unfolding wants_read
reads_never_low undefined_state = refl
reads_never_low read_high = refl
reads_never_low read_low = refl
reads_never_low write_high = refl
reads_never_low write_low = refl

reads_never_high : (s : Um245Status) → wants_read s write_high ≡ false
unfolding wants_read
reads_never_high undefined_state = refl
reads_never_high read_high = refl
reads_never_high read_low = refl
reads_never_high write_high = refl
reads_never_high write_low = refl

low_sends_nothing : (s : Um245Status) → wants_write s write_low ≡ false
unfolding wants_write
low_sends_nothing undefined_state = refl
low_sends_nothing read_high = refl
low_sends_nothing read_low = refl
low_sends_nothing write_high = refl
low_sends_nothing write_low = refl

module _ (V : ViaApi) where
  -- After a write to port A.
  unfoldable pub lowered : Um245 → Um245
  lowered um = record um { prev_state = um.state; state = write_low }

  unfoldable pub raised : Um245 → Um245
  raised um = record um { prev_state = um.state; state = write_high }

  pub um245_write-low :
      (val : ℕ) (um : Um245) (via : V.Via)
      → test_bit 7 val ≡ false
      → um245_write V um245_start val um via ≡ ok (lowered um, via)
  unfolding um245_write update_state lowered
  um245_write-low val um via h = rw (h, reads_never_low um.state, low_sends_nothing um.state) refl

  pub um245_write-high :
      (val : ℕ) (um : Um245) (via : V.Via)
      → test_bit 7 val ≡ true
      → um245_write V um245_start val um via
        ≡ ok (
            if wants_write um.state write_high
            then (
              pipe_write (raised um) (V.via_read via via_reg_port_b).0,
              (V.via_read via via_reg_port_b).1,
            )
            else (raised um, via))
  unfolding um245_write update_state raised
  um245_write-high val um via h =
      rw (h, reads_never_high um.state)
        (elim (Bool-cases (wants_write um.state write_high)) [
          | inl e ↦ rw e refl
          | inr e ↦ rw e refl
        ])

  -- No write takes a byte from the pipe, and none faults.
  pub um245_write-input :
      (val : ℕ) (um : Um245) (via : V.Via)
      → Returns (um245_write V um245_start val um via) (λ r. r.0.input ≡ um.input)
  unfolding lowered raised pipe_write
  um245_write-input val um via = elim (Bool-cases (test_bit 7 val)) [
    | inr low ↦ (_, um245_write-low val um via low, refl)
    | inl high ↦ elim (Bool-cases (wants_write um.state write_high)) [
      | inl sent ↦ (_, um245_write-high val um via high, rw sent refl)
      | inr not_sent ↦ (_, um245_write-high val um via high, rw not_sent refl)
    ]
  ]
