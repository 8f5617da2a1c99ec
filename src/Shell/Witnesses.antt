-- ===== src/Shell/Witnesses.antt =====
-- The theorems on the shell at concrete lines.
use bit_computer.Common.{
  Bytes, [], arith, false, fault, from_list, if◌then◌else◌, leb, ltb, none, out_of_bounds, zeros, ℕ,
  ◌&&◌, ◌+◌, ◌∷◌, ◌≡◌,
}
use bit_computer.Fs.Disk.{block_store}
use bit_computer.Shell.{LineInput, type_chars}
use bit_computer.Shell.Input.{type_chars_lem}
use bit_computer.Shell.Terminal.{Terminal}

abbrev typed : Bytes
typed = from_list (b'f' ∷ b's' ∷ b'f' ∷ b'i' ∷ b'n' ∷ b'd' ∷ b'\r' ∷ [])

abbrev cleared : LineInput
cleared = record { buff = zeros; current_index = 0 }

type_chars_lem_example :
    (st' : LineInput) × (type_chars 65 0 (λ k. 65) cleared ≡ fault out_of_bounds)
    × (st'.current_index ≡ 65)
    × ((k : ℕ) → st'.buff k ≡ (if leb 0 k && ltb k 65 then 65 else 0))
type_chars_lem_example =
    type_chars_lem 65 0 (λ k. 65) cleared (omega arith) (λ k lo hi. omega arith)

abbrev fsread_line : Bytes
fsread_line = from_list (b'f' ∷ b's' ∷ b'r' ∷ b'e' ∷ b'a' ∷ b'd' ∷ b' ' ∷ b'1' ∷ b'\r' ∷ [])

abbrev fsstat_line : Bytes
fsstat_line = from_list (b'f' ∷ b's' ∷ b's' ∷ b't' ∷ b'a' ∷ b't' ∷ b' ' ∷ b'4' ∷ b'\r' ∷ [])

-- A text for the loop of `shell_fs_write`.
abbrev at_prompt : Terminal block_store
at_prompt = record {
  fs = record {
    heap = 8000;
    disk = λ b k. b + k;
    free_blocks = none;
    meta_data = record { magic = 0; blocks = 0; inode_blocks = 0; inodes = 0 };
  };
  fs_mounted = false;
  incoming = from_list (b'H' ∷ b'i' ∷ b'!' ∷ b'E' ∷ b'O' ∷ b'F' ∷ []);
  output = [];
  memory = zeros;
}
