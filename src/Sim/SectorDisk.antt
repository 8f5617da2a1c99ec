-- ===== src/Sim/SectorDisk.antt =====
-- sim/src/disk.c: a file of sectors, each 255 bytes after the one before it. No other file calls it.
use bit_computer.Common.{
  Bool, Bytes, Run, ap, arith, exited, fault, if◌then◌else◌, ok, zeros, ℕ, ◌*◌, ◌+◌, ◌-◌, ◌<◌, ◌==◌,
  ◌≡◌, ◌≤◌,
}
use bit_computer.Disks.File.{File, fread, fwrite}
use bit_computer.Fs.Layout.{size}

-- `sector * 255`
abbrev sector_step : ℕ
sector_step = 255

-- The file that `disk_init` leaves; `fopen(name, "wb+")` has emptied it. `none` is the exit when it cannot be opened.
unfoldable disk_init : Bool → Run File
disk_init can_open =
    if can_open
    then ok (fwrite (record { size = 0; content = zeros }) 0 (λ k. 0xff) 2048)
    else fault exited

-- `size` bytes of `data` at the start of the sector.
unfoldable sector_write : ℕ → Bytes → ℕ → File → File
sector_write sector bytes size f = fwrite f (sector * sector_step) bytes size

unfoldable sector_read : ℕ → Bytes → ℕ → File → Bytes
sector_read sector buf size f = fread f (sector * sector_step) buf size

-- Reading a sector after another one, or the same, has been written, within the file's size: with at most 255
-- bytes each, the bytes of the same sector come back and those of another one are as they were; of 256 bytes the last is the
-- first of the next sector.
sector_read-sector_write :
    (f : File) (s t n : ℕ) (bytes buf : Bytes)
    → s * sector_step + n ≤ f.size
    → (n ≤ sector_step
        → (k : ℕ) → k < n
        → sector_read t buf n (sector_write s bytes n f) k
          ≡ (if s == t then bytes k else sector_read t buf n f k))
      × (n ≡ sector_step + 1
          → sector_read (s + 1) buf 1 (sector_write s bytes n f) 0 ≡ bytes sector_step)
unfolding sector_read sector_write fread fwrite
sector_read-sector_write f s t n bytes buf fits = (
  λ small k h.
      let place : s ≡ t → bytes (t * sector_step + k - s * sector_step) ≡ bytes k =
        λ same. ap bytes (omega arith) in
      ground (arith, place),
  λ big.
      let place : bytes ((s + 1) * sector_step + 0 - s * sector_step) ≡ bytes sector_step =
        ap bytes (omega arith) in
      ground (arith, place),
)
