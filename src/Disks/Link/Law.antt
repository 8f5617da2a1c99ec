-- ===== src/Disks/Link/Law.antt =====
-- The disk over the serial line is a disk for the file system.
use native.Mathlib.Decide.{ℕ_discrete}
use bit_computer.Common.{
  ==_ne, ==_self, Bool, Bytes, List, Run, [], ap, arith, bytes_of, false, fault, from_list,
  from_list-bytes_of, if◌then◌else◌, leb, length, length-bytes_of, le→leb, ltb, lt→ltb, ok, refl,
  suc, sym, ℕ, ◌&&◌, ◌*◌, ◌+◌, ◌-◌, ◌<◌, ◌==◌, ◌>>=◌, ◌∙◌, ◌≡◌, ◌≢◌, ◌≤◌,
}
use bit_computer.Disks.Link.{
  block_of, link_read, link_read-block_of, link_write, link_write-stored, resting,
}
use bit_computer.Disks.Serial.{body_size, packet_size}
use bit_computer.Fs.Disk.{DiskApi}
use bit_computer.Fs.Layout.{block_num, block_size, size}
use bit_computer.Server.{Server}
use bit_computer.Server.Disk.{HostDisk, disk_size, disk_write as host_write}
use bit_computer.Server.Receives.{idle}

-- A write of bytes, of which there is at least one.
module _ (n b : ℕ) (x : Bytes) (disk : HostDisk) where
  abbrev end : ℕ
  end = b * block_size + suc n

  host_write-size :
      (host_write b (bytes_of (suc n) 0 x) disk).size
      ≡ (if ltb disk.size end then end else disk.size)
  unfolding host_write bytes_of length
  host_write-size = rw (length-bytes_of n 1 x) refl

  host_write-content :
      (k : ℕ)
      → (host_write b (bytes_of (suc n) 0 x) disk).content k ≡ (
          if leb (b * block_size) k && ltb k end
          then from_list (bytes_of (suc n) 0 x) (k - b * block_size)
          else if ltb k disk.size
          then disk.content k
          else 0)
  unfolding host_write bytes_of length
  host_write-content k = rw (length-bytes_of n 1 x) refl

-- A file of the full size keeps it.
stored-size :
    (b : ℕ) (x : Bytes) (disk : HostDisk)
    → disk.size ≡ disk_size
    → b < block_num
    → (host_write b (bytes_of block_size 0 x) disk).size ≡ disk_size
stored-size b x disk size hb = host_write-size 511 b x disk ∙ ground arith

-- A byte of a block of a file of the full size.
block_of-content :
    (disk : HostDisk) (c k : ℕ)
    → disk.size ≡ disk_size
    → c < block_num
    → k < block_size
    → block_of disk c k ≡ disk.content (c * block_size + k)
block_of-content disk c k size hc hk =
    rw (lt→ltb k block_size hk) (rw (lt→ltb (c * block_size + k) disk.size (omega arith)) refl)

-- A byte of the block that is written, and of another.
content-same :
    (disk : HostDisk) (b k : ℕ) (x : Bytes)
    → k < block_size
    → (host_write b (bytes_of block_size 0 x) disk).content (b * block_size + k) ≡ x k
content-same disk b k x hk =
    let at : b * block_size + k - b * block_size ≡ k = omega arith in
    host_write-content 511 b x disk (b * block_size + k)
    ∙ rw (le→leb (b * block_size) (b * block_size + k) (omega arith)) (
        rw (lt→ltb (b * block_size + k) (b * block_size + 512) (omega arith)) (
          rw at (
            from_list-bytes_of block_size 0 k x
            ∙ rw (lt→ltb k block_size hk) (ap x (omega arith)))))

content-other :
    (disk : HostDisk) (b c k : ℕ) (x : Bytes)
    → disk.size ≡ disk_size
    → b ≢ c
    → c < block_num
    → k < block_size
    → (host_write b (bytes_of block_size 0 x) disk).content (c * block_size + k)
      ≡ disk.content (c * block_size + k)
content-other disk b c k x size ne hc hk =
    let away : (leb (b * block_size) (c * block_size + k)
          && ltb (c * block_size + k) (b * block_size + 512))
        ≡ false =
      ground arith in
    host_write-content 511 b x disk (c * block_size + k)
    ∙ rw away (rw (lt→ltb (c * block_size + k) disk.size (omega arith)) refl)

-- A block of the file after another has been written.
block_of-stored :
    (disk : HostDisk) (b c k : ℕ) (x : Bytes)
    → disk.size ≡ disk_size
    → b < block_num
    → c < block_num
    → k < block_size
    → block_of (host_write b (bytes_of block_size 0 x) disk) c k
      ≡ (if b == c then x k else disk.content (c * block_size + k))
block_of-stored disk b c k x size hb hc hk =
    block_of-content (host_write b (bytes_of block_size 0 x) disk) c k
      (stored-size b x disk size hb) hc hk
    ∙ elim (ℕ_discrete b c) [
      | yes e ↦ rw (sym e, ==_self b) (content-same disk b k x hk)
      | no ne ↦ rw (==_ne b c ne) (content-other disk b c k x size ne hc hk)
    ]

-- A block that has been sent to the server is what the next read of it gives; other blocks are as the
-- server's file had them.
module _ (heap : ℕ) (memory : body_size + packet_size ≤ heap) (disk : HostDisk)
    (full : disk.size ≡ disk_size) where
  pub link_read-link_write :
      (b c : ℕ) (x buf : Bytes) (old : List ℕ) (cl : ℕ) (printed : List ℕ)
      → b < block_num
      → c < block_num
      → (buf' : Bytes) × (s : Server) × ((link_write heap b x (resting old cl disk printed)
            >>= link_read heap c buf)
          ≡ ok (buf', s))
        × ((k : ℕ)
            → k < block_size
            → buf' k ≡ (if b == c then x k else disk.content (c * block_size + k)))
  link_read-link_write b c x buf old cl printed hb hc =
      let after = host_write b (bytes_of block_size 0 x) disk in
      let size = stored-size b x disk full hb in
      let (buf', read, bytes) =
        link_read-block_of heap memory after [] (block_size + 2) printed c (omega arith)
          (omega arith) buf in
      (
        buf',
        idle [] 2 after (bytes_of block_size 0 (block_of after c)) printed,
        rw (link_write-stored heap memory disk old cl printed b (omega arith) x) read,
        λ k lt.
            bytes k
            ∙ ap (λ (t : Bool). if t then block_of after c k else buf k) (lt→ltb k block_size lt)
            ∙ block_of-stored disk b c k x full hb hc lt,
      )

-- The server as a disk of the file system: what counts is the content of its file. The heap is big enough.
abbrev enough : ℕ
enough = body_size + packet_size

abbrev at_rest : Bytes → Server
at_rest content = resting [] 0 (record { content = content; size = disk_size }) []

abbrev filled : Bytes → Run (Bytes × Server) → Bytes
filled buf (ok (buf', _)) = buf'
filled buf (fault _) = buf

abbrev kept : Bytes → Run Server → Bytes
kept d (ok s) = s.disk.content
kept d (fault _) = d

unfoldable line_read : Bytes → ℕ → Bytes → Bytes
line_read d block buf = filled buf (link_read enough block buf (at_rest d))

unfoldable line_write : Bytes → ℕ → Bytes → Bytes
line_write d block x = kept d (link_write enough block x (at_rest d))

line_read-content :
    (d : Bytes) (c k : ℕ) (buf : Bytes)
    → c < block_num
    → k < block_size
    → line_read d c buf k ≡ d (c * block_size + k)
unfolding line_read
line_read-content d c k buf hc lt =
    let disk : HostDisk = record { content = d; size = disk_size } in
    let (buf', read, bytes) =
      link_read-block_of enough (omega arith) disk [] 0 [] c (omega arith) (omega arith) buf in
    ap (λ r. filled buf r k) read
    ∙ bytes k
    ∙ ap (λ (t : Bool). if t then block_of disk c k else buf k) (lt→ltb k block_size lt)
    ∙ block_of-content disk c k refl hc lt

line_write-content :
    (d : Bytes) (b : ℕ) (x : Bytes)
    → b < block_num
    → line_write d b x
      ≡ (host_write b (bytes_of block_size 0 x) (record { content = d; size = disk_size })).content
unfolding line_write
line_write-content d b x hb = ap (kept d) (
    link_write-stored enough (omega arith) (record { content = d; size = disk_size }) [] 0 [] b
      (omega arith) x)

line_read-line_write :
    (d : Bytes) (b : ℕ) (x : Bytes) (c : ℕ) (buf : Bytes) (k : ℕ)
    → b < block_num
    → c < block_num
    → k < block_size
    → line_read (line_write d b x) c buf k ≡ (if b == c then x k else line_read d c buf k)
line_read-line_write d b x c buf k hb hc lt =
    let disk : HostDisk = record { content = d; size = disk_size } in
    line_read-content (line_write d b x) c k buf hc lt
    ∙ ap (λ (m : Bytes). m (c * block_size + k)) (line_write-content d b x hb)
    ∙ sym (
        block_of-content (host_write b (bytes_of block_size 0 x) disk) c k
          (stored-size b x disk refl hb) hc lt)
    ∙ block_of-stored disk b c k x refl hb hc lt
    ∙ ap (λ old. if b == c then x k else old) (sym (line_read-content d c k buf hc lt))

abbrev line_disk : DiskApi
line_disk = record {
  Disk = Bytes;
  disk_read = line_read;
  disk_write = line_write;
  read-write = line_read-line_write;
}
