-- ===== src/Shell/Terminal.antt =====
-- shell_in_c/main.c: the variables of the shell, and what its commands share. The texts that it writes are not
-- modelled, constructors stand for them.
use bit_computer.Common.{
  Bool, Bytes, List, Option, Run, [], bytes_of, cc65, false, fault, if◌then◌else◌, length, ltb,
  none, null_pointer, ok, out_of_bounds, scan_number, some, starts_with, true, ℕ, ℤ, ◌&&◌, ◌++◌,
  ◌+◌, ◌-◌, ◌>>=◌, ◌∷◌,
}
use bit_computer.Fs.Bitmap.{fs_mount}
use bit_computer.Fs.Disk.{DiskApi}
use bit_computer.Fs.Layout.{block_size}
use bit_computer.Fs.Read.{InfoResult}
use bit_computer.Fs.State.{State, malloc}
use bit_computer.Shell.{buff_size}

-- What goes to the terminal: a byte, or a text with the numbers in it.
pub data Message : Type 0 where
  heap_available : ℕ → Message
  info_totals : InfoResult → Message
  mounting already_mounted mount_request : Message
  create_request create_answer no_inode : Message
  inode_number : ℤ → Message
  invalid_write invalid_read invalid_stat : Message
  input_inode : ℕ → Message
  write_error : ℤ → Message
  reading_error : Message
  read_failed : ℤ → Message
  size_line : ℤ → Message
  format_error not_found_line : Message
  motd prompt : Message

pub data Written : Type 0 where
  raw : ℕ → Written
  text_line : Message → Written

-- The variables of the shell, with the bytes on the serial line that are for the terminal. The packets of the disk share
-- that line on the hardware; here the disk stands apart, so what the two do to each other is not modelled. `memory` is what stands in a block of the heap before it is written to. The
-- heap is part of the state of the file system.
pub record Terminal (D : DiskApi) : Type 0 where
  pub fs : State D
  pub fs_mounted : Bool
  pub incoming : ℕ → ℕ
  pub output : List Written
  pub memory : Bytes

-- `sscanf(buff, "<word> %d", &n)`: the number, as a 16-bit word, or none where less than one was read. The
-- space in the format passes over white space, as the number does.
unfoldable pub scan_argument : List ℕ → Bytes → Run (Option ℕ)
unfolding starts_with
scan_argument word buff =
    let rest = bytes_of (buff_size - length word) (length word) buff in
    if starts_with word 0 buff then scan_number cc65 10 rest else ok none

abbrev pub fsread_word : List ℕ
fsread_word = b'f' ∷ b's' ∷ b'r' ∷ b'e' ∷ b'a' ∷ b'd' ∷ []

abbrev pub fswrite_word : List ℕ
fswrite_word = b'f' ∷ b's' ∷ b'w' ∷ b'r' ∷ b'i' ∷ b't' ∷ b'e' ∷ []

abbrev pub fsstat_word : List ℕ
fsstat_word = b'f' ∷ b's' ∷ b's' ∷ b't' ∷ b'a' ∷ b't' ∷ []

-- `sizeof(Disk)`: three words and a byte. `main` allocates both structures with it.
abbrev pub disk_struct_size : ℕ
disk_struct_size = 7

-- `sizeof(FileSystem)`: two pointers, a superblock and a pointer.
abbrev file_system_size : ℕ
file_system_size = 22

-- The block of `serial_writeline_f`.
abbrev writeline_size : ℕ
writeline_size = 1024

module _ {D : DiskApi} where
  unfoldable pub put : Written → Terminal D → Terminal D
  put x t = record t { output = t.output ++ (x ∷ []) }

  -- `serial_readbyte`
  unfoldable pub take_byte : Terminal D → ℕ × Terminal D
  take_byte t = (t.incoming 0, record t { incoming = λ k. t.incoming (k + 1) })

  -- `malloc` and `free`, on the heap.
  unfoldable pub allocate_bytes : ℕ → Terminal D → Option (Terminal D)
  unfolding malloc
  allocate_bytes n t = elim (malloc n t.fs.heap) [
    | none ↦ none
    | some heap ↦ some (record t { fs = record t.fs { heap = heap } })
  ]

  unfoldable pub free_bytes : ℕ → Terminal D → Terminal D
  free_bytes n t = record t { fs = record t.fs { heap = t.fs.heap + n } }

  -- `serial_writeline_f`: the block for the text is not tested, and it is freed afterwards.
  unfoldable pub serial_writeline_f : Message → Terminal D → Run (Terminal D)
  unfolding allocate_bytes put
  serial_writeline_f m t = elim (allocate_bytes writeline_size t) [
    | none ↦ fault null_pointer
    | some _ ↦ ok (put (text_line m) t)
  ]

  -- `fs_mount` and the flag: the result is not looked at. The `FileSystem` has a block of `sizeof(Disk)` bytes, so
  -- that the superblock, which `fs_mount` stores once it has memory for a block, is written past it.
  unfoldable pub mount : Terminal D → Run (Terminal D)
  mount t =
      let stores : Bool = elim (malloc block_size t.fs.heap) [ none ↦ false | some _ ↦ true ] in
      if stores && ltb disk_struct_size file_system_size
      then fault out_of_bounds
      else (do (_, fs) ← fs_mount t.fs; ok (record t { fs = fs; fs_mounted = true }))

  unfoldable pub shell_fs_mount : Terminal D → Run (Terminal D)
  unfolding put mount
  shell_fs_mount t =
      if t.fs_mounted
      then ok (put (text_line already_mounted) t)
      else mount (put (text_line mounting) t)
