-- ===== src/Shell/Commands/Mount.antt =====
-- What mounting does in the shell (shell_in_c/main.c), whose block for the structure of the file system is too small.
use bit_computer.Common.{ℕ, ◌-◌}
use bit_computer.Fs.Disk.{DiskApi}
use bit_computer.Shell.Terminal.{Terminal}

module _ {D : DiskApi} (t : Terminal D) where
  abbrev allocated : ℕ → Terminal D
  allocated n = record t { fs = record t.fs { heap = t.fs.heap - n } }
