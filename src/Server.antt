-- ===== src/Server.antt =====
-- The other end of the serial line: serial/tokenizer.go, and `run` and `handleToken` of serial/main.go.
-- What it writes to its log file is not modelled.
pub mod Tokens
pub mod Disk
pub mod Receives
mod Witnesses
use bit_computer.Common.{
  List, Run, [], bytes_of, exited, fault, if◌then◌else◌, none, ok, some, ℕ, ◌++◌, ◌==◌, ◌>>=◌, ◌∷◌,
}
use bit_computer.Fs.Layout.{block_size}
use bit_computer.Server.Disk.{HostDisk, disk_read, disk_write}
use bit_computer.Server.Tokens.{Tokenizer, data_text, next, submit}

-- The state of `run`: what has been written to the device, and the characters that have been printed.
pub record Server : Type 0 where
  pub tokenizer : Tokenizer
  pub disk : HostDisk
  pub written : List ℕ
  pub printed : List ℕ

-- A slice from index 2 on; it panics if there are fewer bytes.
unfoldable pub get_content : List ℕ → Run (List ℕ)
get_content [] = fault exited
get_content (x ∷ []) = fault exited
get_content (x ∷ y ∷ rest) = ok rest

unfoldable pub get_sector : List ℕ → Run ℕ
get_sector [] = fault exited
get_sector (x ∷ []) = fault exited
get_sector (x ∷ sector ∷ rest) = ok sector

-- `data[0]`
unfoldable pub first_byte : List ℕ → Run ℕ
first_byte [] = fault exited
first_byte (x ∷ rest) = ok x

-- The branches for a token that begins with `R` and with `W`.
unfoldable pub handle_read : List ℕ → Server → Run Server
handle_read token s = do
  sector ← get_sector token
  block ← disk_read sector s.disk
  ok (record s { written = s.written ++ bytes_of block_size 0 block })

unfoldable pub handle_write : List ℕ → Server → Run Server
handle_write token s = do
  sector ← get_sector token
  content ← get_content token
  ok (record s { disk = disk_write sector content s.disk })

-- For any other token the program ends.
unfoldable pub handle_token : List ℕ → Server → Run Server
handle_token token s = first_byte token >>= λ kind.
    if kind == b'R'
    then handle_read token s
    else if kind == b'W'
    then handle_write token s
    else fault exited

-- The loop that prints the text.
unfoldable pub print : List ℕ → Server → Server
print [] s = s
print (c ∷ cs) s = print cs (record s { printed = s.printed ++ (c ∷ []) })

-- The body of the loop over the bytes that have been read.
unfoldable pub on_byte : ℕ → Server → Run Server
on_byte c s = do
  t ← submit c s.tokenizer
  let (token, t') = next t
  elim token [
    | some data' ↦ handle_token data' (record s { tokenizer = t' })
    | none ↦ (let (text, t″) = data_text t' in ok (print text (record s { tokenizer = t″ })))
  ]

unfoldable pub on_bytes : List ℕ → Server → Run Server
on_bytes [] s = ok s
on_bytes (c ∷ cs) s = on_byte c s >>= on_bytes cs
