-- ===== src/Disks/Serial/Leak.antt =====
-- How many blocks shell_in_c/fs/src/mcu/disk.c can write, since `disk_write` does not free the body of its packet.
use bit_computer.Common.{
  Bytes, List, [], ap, append-nil, append_assoc, arith, dec_lt, le→ltb, lt→ltb, negsuc, pos, refl,
  suc, sym, zero, ℕ, ℤ, ◌*◌, ◌++◌, ◌+◌, ◌-◌, ◌<◌, ◌∙◌, ◌∷◌, ◌≡◌, ◌≤◌,
}
use bit_computer.Disks.Serial.{disk_write, Line, body_size, cmdmode, frame, packet_size, write_body}
use bit_computer.Disks.Serial.Sends.{disk_write-frame}
use bit_computer.Fs.Layout.{block_size}

-- The blocks that are written one after another, with the results of `disk_write`.
unfoldable pub write_blocks : List (ℕ × Bytes) → Line → List ℤ × Line
write_blocks [] l = ([], l)
write_blocks ((block, bytes) ∷ ws) l =
    let (r, l') = disk_write block bytes l in let (rs, l'') = write_blocks ws l' in (r ∷ rs, l'')

-- The results if the first `n` writes succeed and no other does, and what is sent then.
abbrev results_of : ℕ → List (ℕ × Bytes) → List ℤ
results_of n [] = []
results_of zero (w ∷ ws) = negsuc 0 ∷ results_of zero ws
results_of (suc n) (w ∷ ws) = pos 0 ∷ results_of n ws

abbrev pub frames_of : ℕ → List (ℕ × Bytes) → List ℕ
frames_of n [] = []
frames_of zero (w ∷ ws) = []
frames_of (suc n) ((block, bytes) ∷ ws) =
    frame cmdmode (block_size + 2) (write_body block bytes) ++ frames_of n ws

frames_of-zero : (ws : List (ℕ × Bytes)) → frames_of zero ws ≡ []
frames_of-zero [] = refl
frames_of-zero (w ∷ ws) = refl

-- A write with too little memory: nothing is sent, and there is not more memory after it.
disk_write-fails :
    (block : ℕ) (bytes : Bytes) (l : Line)
    → l.heap < body_size + packet_size
    → (h : ℕ) × (h ≤ l.heap) × (disk_write block bytes l ≡ (negsuc 0, record l { heap = h }))
disk_write-fails block bytes l little = elim (dec_lt l.heap body_size) [
  | yes less ↦
      (l.heap, omega arith, disk_write-frame block bytes l ∙ rw (lt→ltb l.heap body_size less) refl)
  | no more ↦ (
    l.heap - body_size,
    omega arith,
    disk_write-frame block bytes l
        ∙ rw (le→ltb l.heap body_size (omega arith), lt→ltb _ _ little) refl,
  )
]

disk_write-succeeds :
    (block : ℕ) (bytes : Bytes) (l : Line)
    → body_size + packet_size ≤ l.heap
    → disk_write block bytes l ≡ (
      pos 0,
      record l {
        sent = l.sent ++ frame cmdmode (block_size + 2) (write_body block bytes);
        heap = l.heap - body_size;
      },
    )
disk_write-succeeds block bytes l room =
    disk_write-frame block bytes l
    ∙ rw (le→ltb l.heap body_size (omega arith), le→ltb l.heap (body_size + packet_size) room) refl

write_blocks-none :
    (ws : List (ℕ × Bytes)) (l : Line)
    → l.heap < body_size + packet_size
    → ((write_blocks ws l).0 ≡ results_of zero ws) × ((write_blocks ws l).1.sent ≡ l.sent)
unfolding write_blocks
write_blocks-none [] l little = (refl, refl)
write_blocks-none ((block, bytes) ∷ ws) l little =
    let (h, less, fails) = disk_write-fails block bytes l little in
    let (results, sent) = write_blocks-none ws (record l { heap = h }) (omega arith) in
    rw fails (ap (λ rs. negsuc 0 ∷ rs) results, sent)

-- With memory for a packet and the bodies of `n` packets, but not of one more, just the first `n` of any sequence of writes
-- succeed: they send their packets, and each one after them returns -1 and sends nothing.
pub write_blocks-results_of :
    (n : ℕ) (ws : List (ℕ × Bytes)) (l : Line)
    → body_size * n + packet_size ≤ l.heap
    → l.heap < body_size * (n + 1) + packet_size
    → ((write_blocks ws l).0 ≡ results_of n ws)
      × ((write_blocks ws l).1.sent ≡ l.sent ++ frames_of n ws)
unfolding write_blocks
write_blocks-results_of n [] l enough few = (refl, sym (append-nil l.sent))
write_blocks-results_of zero (w ∷ ws) l enough few =
    let (results, sent) = write_blocks-none (w ∷ ws) l (omega arith) in
    (results, sent ∙ sym (append-nil l.sent))
write_blocks-results_of (suc n) ((block, bytes) ∷ ws) l enough few =
    let packet = frame cmdmode (block_size + 2) (write_body block bytes) in
    let next : Line = record l { sent = l.sent ++ packet; heap = l.heap - body_size } in
    let (results, sent) = write_blocks-results_of n ws next (omega arith) (omega arith) in
    rw (disk_write-succeeds block bytes l (omega arith))
      (ap (λ rs. pos 0 ∷ rs) results, sent ∙ append_assoc l.sent packet (frames_of n ws))
