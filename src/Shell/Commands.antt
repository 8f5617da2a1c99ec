-- ===== src/Shell/Commands.antt =====
-- shell_in_c/main.c: what the commands do.
pub mod Text
pub mod Mount
use bit_computer.Common.{
  Bool, Bytes, Run, false, fault, if◌then◌else◌, is_zero, ltb, negsuc, none, null_pointer, ok, poke,
  pos, some, suc, true, zero, zeros, ℕ, ℤ, ◌%◌, ◌&&◌, ◌+◌, ◌-◌, ◌==◌, ◌>>=◌, ◌^◌,
}
use bit_computer.Fs.Create.{fs_create}
use bit_computer.Fs.Disk.{DiskApi}
use bit_computer.Fs.Format.{fs_format}
use bit_computer.Fs.Read.{fs_info, fs_read, fs_stat}
use bit_computer.Fs.Write.{fs_write}
use bit_computer.Shell.{
  Command, fscreate, fsfind, fsfmt, fsmnt, fsread, fsstat, fswrite, info, ledoff, ledon, not_found,
  spi, wozmon,
}
use bit_computer.Shell.Terminal.{
  Terminal, allocate_bytes, create_answer, create_request, format_error, free_bytes, fsread_word,
  fsstat_word, fswrite_word, heap_available, info_totals, inode_number, input_inode, invalid_read,
  invalid_stat, invalid_write, mount, mount_request, no_inode, not_found_line, put, raw,
  read_failed, reading_error, scan_argument, serial_writeline_f, shell_fs_mount, size_line,
  take_byte, text_line, write_error,
}

-- `strlen`, for an array with a null after at most `n` bytes from `i` on.
unfoldable pub strlen : ℕ → ℕ → Bytes → ℕ
strlen zero i data' = i
strlen (suc n) i data' = (let rest = strlen n (i + 1) data' in if data' i == 0 then i else rest)

-- `data[i - 2] == 'E' && data[i - 1] == 'O' && data[i] == 'F'`, for an index after the first three bytes.
abbrev pub is_end : ℕ → Bytes → Bool
is_end i data' = ltb 2 i && (data' (i - 2) == b'E') && (data' (i - 1) == b'O') && (data' i == b'F')

abbrev pub text_size : ℕ
text_size = 64

-- `sizeof(fs_info_res)`: three numbers of four bytes.
abbrev pub info_size : ℕ
info_size = 12

abbrev is_negative : ℤ → Bool
is_negative (pos n) = false
is_negative (negsuc n) = true

module _ {D : DiskApi} where
  -- Without memory for the second block the first one stays allocated.
  unfoldable pub shell_fs_print_info : Terminal D → Run (Terminal D)
  unfolding allocate_bytes free_bytes put shell_fs_mount
  shell_fs_print_info t = elim (allocate_bytes 512 t) [
    | none ↦ ok t
    | some t₁ ↦ elim (allocate_bytes info_size t₁) [
      | none ↦ ok t₁
      | some t₂ ↦ do
        t₃ ← shell_fs_mount t₂
        res ← fs_info t₃.fs
        ok (free_bytes info_size (free_bytes 512 (put (text_line (info_totals res)) t₃)))
    ]
  ]

  -- The result of `malloc` is not tested before `sprintf` writes there.
  unfoldable pub shell_info : Terminal D → Run (Terminal D)
  unfolding shell_fs_print_info
  shell_info t = elim (allocate_bytes 25 t) [
    | none ↦ fault null_pointer
    | some t' ↦ shell_fs_print_info (free_bytes 25 (put (text_line (heap_available t.fs.heap)) t'))
  ]

  -- `data` is not tested either, and never freed.
  unfoldable create_in : Bool → Terminal D → Run (Terminal D)
  unfolding put
  create_in has_data t = do
    (inode, fs) ← fs_create t.fs
    let t' = record t { fs = fs }
    if is_negative inode
        then ok (put (text_line no_inode) t')
        else if has_data
        then ok (put (text_line (inode_number inode)) t')
        else fault null_pointer

  unfoldable pub shell_fs_create : Terminal D → Run (Terminal D)
  unfolding create_in
  shell_fs_create t = do
    mounted ← shell_fs_mount (put (text_line create_request) t)
    elim (allocate_bytes 128 mounted) [
      | none ↦ create_in false mounted
      | some t' ↦ create_in true t'
    ]

  -- The loop that reads the text, `n` rounds from byte `i` on, each byte with its echo.
  unfoldable pub read_text : ℕ → ℕ → Bytes → Terminal D → Bytes × Terminal D
  unfolding take_byte put
  read_text zero i data' t = (data', t)
  read_text (suc n) i data' t =
      let (c, taken) = take_byte t in
      let stored = poke data' i c in
      let t' = put (raw c) taken in
      elim (is_end i stored) [ true ↦ (stored, t') | false ↦ read_text n (i + 1) stored t' ]

  -- `fs_write` and the message for its error.
  unfoldable write_text : ℕ → Bytes → ℕ → Terminal D → Run (Terminal D)
  unfolding put
  write_text inode data' size t = do
    (write_res, fs) ← fs_write t.fs inode data' size 0
    let t' = record t { fs = fs }
    if is_zero write_res then ok t' else serial_writeline_f (write_error write_res) t'

  -- After the text: its length without the last three bytes is a difference of 16-bit words.
  unfoldable save_text : ℕ → Bytes × Terminal D → Run (Terminal D)
  unfolding strlen write_text
  save_text inode (data', t) =
      let size = (strlen text_size 0 data' + 2 ^ 16 - 3) % 2 ^ 16 in
      if size == 0 then ok t else (do
        told ← serial_writeline_f (input_inode inode) t
        t' ← shell_fs_mount told
        write_text inode data' size t')

  -- The block for the text is neither tested nor freed.
  unfoldable shell_fs_write : Bytes → Terminal D → Run (Terminal D)
  unfolding save_text read_text scan_argument
  shell_fs_write buff t = elim (allocate_bytes text_size t) [
    | none ↦ fault null_pointer
    | some t' ↦ scan_argument fswrite_word buff >>= λ scanned. elim scanned [
      | none ↦ serial_writeline_f invalid_write t'
      | some inode ↦ save_text inode (read_text 63 0 zeros (put (raw b'\n') t'))
    ]
  ]

  -- The loop that writes what has been read.
  unfoldable write_bytes : ℕ → ℕ → Bytes → Terminal D → Terminal D
  unfolding put
  write_bytes zero i data' t = t
  write_bytes (suc n) i data' t = write_bytes n (i + 1) data' (put (raw (data' i)) t)

  -- The bytes are written also after an error.
  unfoldable print_file : ℕ → ℕ → Terminal D → Run (Terminal D)
  unfolding write_bytes
  print_file inode size t = elim (allocate_bytes size t) [
    | none ↦ ok t
    | some t₁ ↦ do
      (read_res, data', fs) ← fs_read t₁.fs inode t.memory size 0
      let t₂ = record t₁ { fs = fs }
      t₃ ← (if is_zero read_res then ok t₂ else serial_writeline_f (read_failed read_res) t₂)
      ok (free_bytes size (write_bytes size 0 data' t₃))
  ]

  unfoldable read_size : ℕ → ℤ → Terminal D → Run (Terminal D)
  unfolding print_file
  read_size inode (negsuc e) t = ok (put (text_line reading_error) t)
  read_size inode (pos size) t = if size == 0 then ok t else print_file inode size t

  unfoldable pub shell_fs_read : Bytes → Terminal D → Run (Terminal D)
  unfolding read_size
  shell_fs_read buff t = scan_argument fsread_word buff >>= λ scanned. elim scanned [
    | none ↦ serial_writeline_f invalid_read t
    | some inode ↦ do
      mounted ← shell_fs_mount t
      (stat_res, fs) ← fs_stat mounted.fs inode
      read_size inode stat_res (record mounted { fs = fs })
  ]

  unfoldable pub shell_fs_stat : Bytes → Terminal D → Run (Terminal D)
  shell_fs_stat buff t = scan_argument fsstat_word buff >>= λ scanned. elim scanned [
    | none ↦ serial_writeline_f invalid_stat t
    | some inode ↦ do
      mounted ← shell_fs_mount t
      (stat_res, fs) ← fs_stat mounted.fs inode
      let t' = record mounted { fs = fs }
      if is_negative stat_res
          then ok (put (text_line reading_error) t')
          else serial_writeline_f (size_line stat_res) t'
  ]

  -- The branches of the main loop. `other` stands for those whose code is in assembly, and for `fsfind`.
  unfoldable pub execute :
      (Command → Terminal D → Run (Terminal D)) → Command → Bytes → Terminal D → Run (Terminal D)
  unfolding shell_info shell_fs_create shell_fs_read shell_fs_write shell_fs_stat
  execute other info buff t = shell_info t
  execute other fsfmt buff t =
      let (formatted, fs) = fs_format t.fs in
      let t' = record t { fs = fs } in
      ok (if formatted then t' else put (text_line format_error) t')
  execute other fsmnt buff t = mount (put (text_line mount_request) t)
  execute other fscreate buff t = shell_fs_create (put (text_line create_answer) t)
  execute other fsread buff t = shell_fs_read buff t
  execute other fswrite buff t = shell_fs_write buff t
  execute other fsstat buff t = shell_fs_stat buff t
  execute other not_found buff t = ok (put (text_line not_found_line) t)
  execute other spi buff t = other spi t
  execute other fsfind buff t = other fsfind t
  execute other ledon buff t = other ledon t
  execute other ledoff buff t = other ledoff t
  execute other wozmon buff t = other wozmon t
