-- ===== src/Disks/Link.antt =====
-- The disk over the serial line with the server at its other end.
pub mod Law
use bit_computer.Common.{
  Bytes, List, Run, [], ap, ap₂, arith, bytes_of, bytes_of-congr, from_list, from_list-bytes_of,
  if◌then◌else◌, le→ltb, ltb, lt→ltb, ok, refl, suc, zeros, ℕ, ℤ, ◌&&◌, ◌*◌, ◌+◌, ◌<◌, ◌>>=◌, ◌^◌,
  ◌∙◌, ◌∷◌, ◌≡◌, ◌≤◌,
}
use bit_computer.Disks.Serial.{
  Line, body_size, cmdmode, disk_read, disk_write, frame, packet_size, read_body, write_body,
}
use bit_computer.Disks.Serial.Sends.{disk_read-frame, disk_write-frame}
use bit_computer.Fs.Layout.{block_size}
use bit_computer.Server.{
  Server, first_byte, get_content, get_sector, handle_read, handle_token, handle_write, on_bytes,
}
use bit_computer.Server.Disk.{HostDisk, disk_read as host_read, disk_write as host_write}
use bit_computer.Server.Receives.{idle, on_bytes-frame_alone}

-- A new line with a heap and what will arrive.
abbrev pub line : ℕ → Bytes → Line
line heap reply = record { sent = []; incoming = reply; heap = heap }

-- `disk_write`, and what the server does with the bytes that it sends.
unfoldable pub link_write : ℕ → ℕ → Bytes → Server → Run Server
link_write heap block bytes s = on_bytes (disk_write block bytes (line heap zeros)).1.sent s

-- `disk_read`: the server is given the bytes that are sent, and what it writes back is what arrives. What
-- is sent does not depend on what arrives.
unfoldable pub link_read : ℕ → ℕ → Bytes → Server → Run (Bytes × Server)
link_read heap block buf s = do
  (_, asked) ← disk_read block buf (line heap zeros)
  s' ← on_bytes asked.sent (record s { written = [] })
  (buf', _) ← disk_read block buf (line heap (from_list s'.written))
  ok (buf', s')

-- The server between packets, with its file.
abbrev pub resting : List ℕ → ℕ → HostDisk → List ℕ → Server
resting old cl disk printed = idle old cl disk [] printed

-- What a file has of a block.
abbrev pub block_of : HostDisk → ℕ → Bytes
block_of disk block k =
    if ltb k block_size && ltb (block * block_size + k) disk.size
    then disk.content (block * block_size + k)
    else 0

-- The two kinds of packets, as the server takes them apart.
read_token : (block : ℕ) → block < 2 ^ 8 → bytes_of 2 0 (read_body block) ≡ b'R' ∷ block ∷ []
unfolding bytes_of
read_token block small = ap (λ b. b'R' ∷ b ∷ []) (omega arith)

write_token_suc :
    (n block : ℕ) (bytes : Bytes)
    → block < 2 ^ 8
    → n ≤ block_size
    → bytes_of (suc (suc n)) 0 (write_body block bytes) ≡ b'W' ∷ block ∷ bytes_of n 0 bytes
unfolding bytes_of
write_token_suc n block bytes small h =
    ap₂ (λ b l. b'W' ∷ b ∷ l) (ground arith)
      (bytes_of-congr n 2 0 (write_body block bytes) bytes (λ k lt. ground arith))

write_token :
    (block : ℕ) (bytes : Bytes)
    → block < 2 ^ 8
    → bytes_of (block_size + 2) 0 (write_body block bytes)
      ≡ b'W' ∷ block ∷ bytes_of block_size 0 bytes
write_token block bytes small = write_token_suc block_size block bytes small (omega arith)

module _ (heap : ℕ) (memory : body_size + packet_size ≤ heap) (disk : HostDisk) (old : List ℕ)
    (cl : ℕ) (printed : List ℕ) (block : ℕ) (small : block < 2 ^ 8) where
  -- The server's file after a block has been written.
  abbrev pub stored : Bytes → HostDisk
  stored bytes = host_write block (bytes_of block_size 0 bytes) disk

  sent_write :
      (bytes : Bytes)
      → (disk_write block bytes (line heap zeros)).1.sent
        ≡ frame cmdmode (block_size + 2) (write_body block bytes)
  sent_write bytes =
      ap (λ (r : ℤ × Line). r.1.sent) (disk_write-frame block bytes (line heap zeros))
      ∙ rw (le→ltb heap body_size (omega arith), le→ltb heap (body_size + packet_size) memory) refl

  handled_write :
      (bytes : Bytes)
      → handle_token
          (b'W' ∷ block ∷ bytes_of block_size 0 bytes)
          (resting [] (block_size + 2) disk printed)
        ≡ ok (resting [] (block_size + 2) (stored bytes) printed)
  unfolding handle_token handle_write first_byte get_sector get_content
  handled_write bytes = refl

  -- Writing a block leaves the server between packets with the block in its file.
  pub link_write-stored :
      (bytes : Bytes)
      → link_write heap block bytes (resting old cl disk printed)
        ≡ ok (resting [] (block_size + 2) (stored bytes) printed)
  unfolding link_write
  link_write-stored bytes =
      ap (λ l. on_bytes l (resting old cl disk printed)) (sent_write bytes)
      ∙ on_bytes-frame_alone disk [] printed (block_size + 2) old cl (write_body block bytes)
          (omega arith) (omega arith)
      ∙ ap (λ t. handle_token t (resting [] (block_size + 2) disk printed))
          (write_token block bytes small)
      ∙ handled_write bytes

  module _ (there : block * block_size < disk.size) where
    handled_read :
        handle_token (b'R' ∷ block ∷ []) (resting [] 2 disk printed)
        ≡ ok (idle [] 2 disk (bytes_of block_size 0 (block_of disk block)) printed)
    unfolding handle_token handle_read first_byte get_sector host_read
    handled_read = rw (lt→ltb (block * block_size) disk.size there) refl

    -- Reading a block gives what the server's file has of it, and leaves the file alone.
    pub link_read-block_of :
        (buf : Bytes)
        → (buf' : Bytes) × (link_read heap block buf (resting old cl disk printed)
            ≡ ok (buf', idle [] 2 disk (bytes_of block_size 0 (block_of disk block)) printed))
          × ((k : ℕ) → buf' k ≡ (if ltb k block_size then (block_of disk block) k else buf k))
    unfolding link_read
    link_read-block_of buf =
        let (asked, ask, _) = disk_read-frame block buf (line heap zeros) (omega arith) in
        let answer = from_list (bytes_of block_size 0 (block_of disk block)) in
        let (buf', got, bytes) = disk_read-frame block buf (line heap answer) (omega arith) in
        let served =
          on_bytes-frame_alone disk [] printed 2 old cl (read_body block) (omega arith)
            (omega arith)
          ∙ ap (λ t. handle_token t (resting [] 2 disk printed)) (read_token block small)
          ∙ handled_read in
        (
          buf',
          rw ask (rw served (rw got refl)),
          λ k. bytes k ∙ ground (arith, from_list-bytes_of block_size 0 k (block_of disk block)),
        )
