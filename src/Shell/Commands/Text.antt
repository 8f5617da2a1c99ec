-- ===== src/Shell/Commands/Text.antt =====
-- The loop that reads a text up to EOF, and the one that writes a file's bytes.
use bit_computer.Common.{
  Bytes, List, [], false, if◌then◌else◌, ltb, poke, suc, zero, ℕ, ◌++◌, ◌+◌, ◌<◌, ◌∷◌, ◌≡◌, ◌≢◌,
}
use bit_computer.Fs.Disk.{DiskApi}
use bit_computer.Shell.Commands.{is_end}
use bit_computer.Shell.Terminal.{Terminal, Written, put, raw}

-- `n` bytes from `i` on, as they go to the terminal.
unfoldable pub raws : ℕ → ℕ → Bytes → List Written
raws zero i bytes = []
raws (suc n) i bytes = raw (bytes i) ∷ raws n (i + 1) bytes

-- The text is what comes before the last three of `len + 3` bytes, which say EOF, and they say it nowhere
-- before that from the fourth byte on.
pub record IsText (bytes : Bytes) (len : ℕ) : Type 0 where
  pub more : 0 < len
  pub e : bytes len ≡ b'E'
  pub o : bytes (len + 1) ≡ b'O'
  pub f : bytes (len + 2) ≡ b'F'
  pub not_before : (k : ℕ) → k < len + 2 → is_end k bytes ≡ false
  pub no_null : (k : ℕ) → k < len → bytes k ≢ 0

module _ {D : DiskApi} (bytes : Bytes) (len : ℕ) (text : IsText bytes len) where
  -- What has been read, from byte `i` on: the array, and the terminal with the echo of each byte.
  pub record Read (i n : ℕ) (data' : Bytes) (t : Terminal D) (r : Bytes × Terminal D) : Type 0 where
    pub data_after : (k : ℕ) → r.0 k ≡ (if ltb k (len + 3) then bytes k else data' k)
    pub fs_after : r.1.fs ≡ t.fs
    pub mounted_after : r.1.fs_mounted ≡ t.fs_mounted
    pub memory_after : r.1.memory ≡ t.memory
    pub output_after : r.1.output ≡ t.output ++ raws n i bytes
    pub incoming_after : (k : ℕ) → r.1.incoming k ≡ t.incoming (k + n)

  module _ (i : ℕ) (data' : Bytes) (t : Terminal D) where
    -- After one byte.
    abbrev with_byte : Bytes
    with_byte = poke data' i (t.incoming 0)

    abbrev echoed : Terminal D
    echoed = put (raw (t.incoming 0)) (record t { incoming = λ k. t.incoming (k + 1) })
