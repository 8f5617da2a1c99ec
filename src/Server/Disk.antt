-- ===== src/Server/Disk.antt =====
-- serial/tokenizer.go, `disk`: the file that holds the blocks.
use bit_computer.Common.{
  Bytes, List, Run, [], exited, fault, from_list, if◌then◌else◌, leb, length, ltb, ok, ℕ, ◌&&◌, ◌*◌,
  ◌+◌, ◌-◌, ◌∷◌,
}
use bit_computer.Fs.Layout.{block_size}

pub record HostDisk : Type 0 where
  pub size : ℕ
  pub content : Bytes

abbrev number_of_blocks : ℕ
number_of_blocks = 500

abbrev pub disk_size : ℕ
disk_size = block_size * number_of_blocks

-- `newDisk` where there is no file.
unfoldable new_disk : HostDisk
new_disk = record { size = disk_size; content = λ k. if ltb k disk_size then 0xff else 0 }

-- At the end of the file or after it the read fails, and the caller panics.
unfoldable pub disk_read : ℕ → HostDisk → Run Bytes
disk_read sector d =
    let at = sector * block_size in
    if ltb at d.size
    then ok (λ k. if ltb k block_size && ltb (at + k) d.size then d.content (at + k) else 0)
    else fault exited

-- A gap before the bytes reads as zeros; a write of no bytes does nothing.
unfoldable pub disk_write : ℕ → List ℕ → HostDisk → HostDisk
disk_write sector [] d = d
disk_write sector (b ∷ bs) d =
    let bytes = b ∷ bs in
    let at = sector * block_size in
    let end = at + length bytes in
    record {
      size = if ltb d.size end then end else d.size;
      content = λ k.
          if leb at k && ltb k end
          then from_list bytes (k - at)
          else if ltb k d.size
          then d.content k
          else 0;
    }
