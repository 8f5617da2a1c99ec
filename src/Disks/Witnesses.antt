-- ===== src/Disks/Witnesses.antt =====
-- The theorems on the disks at concrete lines and files.
use bit_computer.Disks.Link
use bit_computer.Disks.Serial
use bit_computer.Disks.Serial.Leak
use bit_computer.Disks.Serial.Sends
use bit_computer.Common.{
  Bytes, [], arith, negsuc, if◌then◌else◌, ltb, none, ok, pos, refl, some, true, zeros, ℕ, ◌<◌, ◌∷◌,
  ◌==◌, ◌>>=◌, ◌≡◌,
}
use bit_computer.Disks.File.{Host, disk_read, disk_read-disk_write, disk_write}
use bit_computer.Disks.Link.Law.{link_read-link_write}
use bit_computer.Fs.Layout.{block_size}
use bit_computer.Server.{Server}
use bit_computer.Server.Disk.{HostDisk, disk_size}

abbrev line : Serial.Line
line = record { sent = []; incoming = λ k. k; heap = 2_000 }

disk_write-frame_example : Serial.disk_write 7 (λ k. k) line ≡ (
  pos 0,
  record line {
    sent = Serial.frame Serial.cmdmode 514 (Serial.write_body 7 (λ k. k));
    heap = 1_485;
  },
)
disk_write-frame_example = Sends.disk_write-frame 7 (λ k. k) line

abbrev host : Host
host = record { file = none; writable = true }

disk_read-disk_write_example :
    ((disk_write 3 (λ k. k) host).0 ≡ pos 0)
    × (buf' : Bytes) × (disk_read 2 zeros (disk_write 3 (λ k. k) host).1 ≡ some buf')
    × ((k : ℕ) → k < block_size → buf' k ≡ (if ltb 2 3 then 0 else if 2 == 3 then k else 0))
disk_read-disk_write_example = disk_read-disk_write 3 2 (λ k. k) zeros host refl

abbrev fresh_disk : HostDisk
fresh_disk = record { size = disk_size; content = λ k. 0xff }

link_read-link_write_example :
    (buf' : Bytes) × (s : Server) × ((Link.link_write 600 3
          (λ k. k)
          (Link.resting [] 0 fresh_disk [])
        >>= Link.link_read 600 3 zeros)
      ≡ ok (buf', s))
    × ((k : ℕ) → k < block_size → buf' k ≡ (if 3 == 3 then k else 0xff))
link_read-link_write_example =
    link_read-link_write 600 (omega arith) fresh_disk refl 3 3 (λ k. k) zeros [] 0 [] (omega arith)
      (omega arith)

-- Of four writes the first three succeed.
write_blocks-results_of_example :
    ((Leak.write_blocks ((1, λ k. k) ∷ (2, λ k. 0) ∷ (3, λ k. k) ∷ (4, λ k. 1) ∷ []) line).0
      ≡ pos 0 ∷ pos 0 ∷ pos 0 ∷ negsuc 0 ∷ [])
    × ((Leak.write_blocks ((1, λ k. k) ∷ (2, λ k. 0) ∷ (3, λ k. k) ∷ (4, λ k. 1) ∷ []) line).1.sent
        ≡ Leak.frames_of 3 ((1, λ k. k) ∷ (2, λ k. 0) ∷ (3, λ k. k) ∷ (4, λ k. 1) ∷ []))
write_blocks-results_of_example =
    Leak.write_blocks-results_of 3 ((1, λ k. k) ∷ (2, λ k. 0) ∷ (3, λ k. k) ∷ (4, λ k. 1) ∷ []) line
      (omega arith) (omega arith)
