-- ===== src/Shell/Loop/Witnesses.antt =====
-- The loop of the shell on concrete bytes.
use bit_computer.Common.{
  [], arith, false, fault, from_list, indeterminate, none, ok, refl, some, suc, zero, ℕ, ◌+◌, ◌<◌,
  ◌∷◌, ◌≡◌, ◌≢◌, ◌⊎◌,
}
use bit_computer.Fs.Disk.{block_store}
use bit_computer.Fs.State.{malloc}
use bit_computer.Shell.{commands}
use bit_computer.Shell.Dispatch.{StartsWithOne}
use bit_computer.Shell.Loop.{Shell, shell_rounds, start_shell}
use bit_computer.Shell.Loop.Unknown.{Refused, line_of, shell_rounds-line}
use bit_computer.Shell.Terminal.{Terminal, allocate_bytes, motd, prompt, put, text_line}

-- `no`, a return, then `ab|`.
abbrev at_reset : Terminal block_store
at_reset = record {
  fs = record {
    heap = 8000;
    disk = λ b k. b + k;
    free_blocks = none;
    meta_data = record { magic = 0; blocks = 0; inode_blocks = 0; inodes = 0 };
  };
  fs_mounted = false;
  incoming = from_list (b'n' ∷ b'o' ∷ b'\r' ∷ []);
  output = [];
  memory = λ k. 200;
}

abbrev in_loop : Shell block_store
in_loop = record { line = record { buff = λ k. 200; current_index = 0 }; terminal = at_reset }

-- The start reaches the loop.
starts :
    start_shell at_reset
    ≡ ok (
        some (record in_loop {
          terminal = record at_reset {
            fs = record at_reset.fs { heap = 7922 };
            output = text_line motd ∷ text_line prompt ∷ [];
          };
        }))
unfolding start_shell allocate_bytes put malloc
starts = refl

no_return : (k : ℕ) → k < 2 → in_loop.terminal.incoming k ≢ b'\r'
unfolding from_list
no_return zero h = λ e. absurd (omega arith)
no_return (suc zero) h = λ e. absurd (omega arith)
no_return (suc (suc k)) h = absurd (omega arith)

ends : in_loop.terminal.incoming 2 ≡ b'\r'
unfolding from_list
ends = refl

shell_rounds-line_example :
    ((shell_rounds (λ cmd t. ok t) 3 in_loop ≡ fault indeterminate)
      × StartsWithOne commands (line_of 2 in_loop))
    ⊎ ((¬ StartsWithOne commands (line_of 2 in_loop))
        × ((sh' : Shell block_store) × (shell_rounds (λ cmd t. ok t) 3 in_loop ≡ ok sh')
            × Refused 2 in_loop sh'))
shell_rounds-line_example =
    shell_rounds-line (λ cmd t. ok t) 2 in_loop refl (omega arith) no_return ends

abbrev for_spi : Terminal block_store
for_spi = record at_reset { incoming = from_list (b'a' ∷ b'|' ∷ b'c' ∷ []) }

no_bar : (k : ℕ) → k < 1 → for_spi.incoming k ≢ b'|'
unfolding from_list
no_bar zero h = λ e. absurd (omega arith)
no_bar (suc k) h = absurd (omega arith)

bar : for_spi.incoming 1 ≡ b'|'
unfolding from_list
bar = refl
