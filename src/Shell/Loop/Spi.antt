-- ===== src/Shell/Loop/Spi.antt =====
-- `shell_spi` passes on what comes before a bar.
use bit_computer.Common.{
  ==_iff, ==_ne, ap, arith, bytes_of, bytes_of-congr, ok, refl, suc, zero, ℕ, ◌+◌, ◌<◌, ◌∙◌, ◌∷◌,
  ◌≡◌, ◌≢◌,
}
use bit_computer.Fs.Disk.{DiskApi}
use bit_computer.Shell.Loop.{spi_loop}
use bit_computer.Shell.Terminal.{Terminal, take_byte}

-- If a bar is among the bytes to come, the loop of `shell_spi` ends: what goes to the SPI are the bytes
-- before the first bar, in order, and the next byte that will be read is the one after it; the file
-- system and the terminal's output are untouched.
spi_loop-ends :
    {D : DiskApi} (n : ℕ) (t : Terminal D)
    → ((k : ℕ) → k < n → t.incoming k ≢ b'|')
    → t.incoming n ≡ b'|'
    → (t' : Terminal D) × (spi_loop (suc n) t ≡ ok (bytes_of n 0 t.incoming, t'))
      × (t'.fs ≡ t.fs)
      × (t'.output ≡ t.output)
      × ((k : ℕ) → t'.incoming k ≡ t.incoming (k + (n + 1)))
unfolding spi_loop take_byte bytes_of
spi_loop-ends zero t before bar = (
  record t { incoming = λ k. t.incoming (k + 1) },
  rw ((==_iff (t.incoming 0) b'|').1 bar, spi_loop) refl,
  refl,
  refl,
  λ k. refl,
)
spi_loop-ends {D} (suc n) t before bar =
    let next : Terminal D = record t { incoming = λ k. t.incoming (k + 1) } in
    let (t', run, fs, output, incoming) =
      spi_loop-ends n next (λ k h. before (k + 1) (omega arith))
        (ap t.incoming (omega arith) ∙ bar) in
    (
      t',
      rw (==_ne (t.incoming 0) b'|' (before 0 (omega arith)), spi_loop)
          (rw run (
            ap (λ l. ok (t.incoming 0 ∷ l, t'))
              (bytes_of-congr n 0 1 next.incoming t.incoming
                (λ k h. ap t.incoming (omega arith))))),
      fs,
      output,
      λ k. incoming k ∙ ap t.incoming (omega arith),
    )
