-- ===== src/Shell/Loop.antt =====
-- shell_in_c/main.c: the start of `main`, a round of its loop, and `shell_spi`.
pub mod Unknown
pub mod Spi
mod Witnesses
use bit_computer.Common.{
  Bool, List, Option, Run, [], false, fault, if◌then◌else◌, none, null_pointer, ok, out_of_fuel,
  poke, some, suc, true, zero, ℕ, ◌==◌, ◌>>=◌, ◌∷◌,
}
use bit_computer.Fs.Disk.{DiskApi}
use bit_computer.Shell.{Command, LineInput, buff_size, on_char}
use bit_computer.Shell.Commands.{execute}
use bit_computer.Shell.Terminal.{
  Terminal, allocate_bytes, disk_struct_size, motd, prompt, put, raw, take_byte, text_line,
}

-- What `main` works on.
pub record Shell (D : DiskApi) : Type 0 where
  pub line : LineInput
  pub terminal : Terminal D

module _ {D : DiskApi} where
  -- `main` up to the loop, with the terminal as it is at reset. `none` is the early return, after an `N` on the display. The block
  -- for the line is not tested, and the loop writes to it first of all.
  unfoldable pub start_shell : Terminal D → Run (Option (Shell D))
  unfolding allocate_bytes put
  start_shell t =
      let has_buff : Bool = elim (allocate_bytes buff_size t) [ none ↦ false | some _ ↦ true ] in
      let t₁ : Terminal D = elim (allocate_bytes buff_size t) [ none ↦ t | some t' ↦ t' ] in
      elim (allocate_bytes disk_struct_size t₁) [
        | none ↦ ok none
        | some t₂ ↦ elim (allocate_bytes disk_struct_size t₂) [
          | none ↦ ok none
          | some t₃ ↦
              if has_buff
              then ok (
                  some (record {
                    line = record { buff = t.memory; current_index = 0 };
                    terminal = put (text_line prompt) (put (text_line motd) t₃);
                  }))
              else fault null_pointer
        ]
      ]

  -- A round of the loop: a byte, its echo, and at the end of a line its command and the next prompt.
  unfoldable pub shell_round : (Command → Terminal D → Run (Terminal D)) → Shell D → Run (Shell D)
  unfolding take_byte put
  shell_round other sh = do
    let (c, t) = take_byte sh.terminal
    let buff = poke sh.line.buff sh.line.current_index c
    (cmd, line') ← on_char c sh.line
    let echoed = put (raw c) t
    elim cmd [
      | none ↦ ok (record { line = line'; terminal = echoed })
      | some cmd ↦ do
        t' ← execute other cmd buff (put (raw b'\n') echoed)
        ok (record { line = line'; terminal = put (text_line prompt) t' })
    ]

  unfoldable pub shell_rounds :
      (Command → Terminal D → Run (Terminal D)) → ℕ → Shell D → Run (Shell D)
  shell_rounds other zero sh = ok sh
  shell_rounds other (suc n) sh = shell_round other sh >>= shell_rounds other n

  -- The loop of `shell_spi`, with at most `n` bytes to come before the bar: the bytes that go to the SPI.
  unfoldable pub spi_loop : ℕ → Terminal D → Run (List ℕ × Terminal D)
  unfolding take_byte
  spi_loop zero t = fault out_of_fuel
  spi_loop (suc n) t =
      let (c, t') = take_byte t in
      elim (c == b'|') [
        | true ↦ ok ([], t')
        | false ↦ do (sent, t'') ← spi_loop n t'; ok (c ∷ sent, t'')
      ]
