-- ===== src/Disks/Serial.antt =====
-- shell_in_c/fs/src/mcu/disk.c: the disk at the other end of the serial line.
pub mod Sends
pub mod Leak
use bit_computer.Common.{
  Bytes, List, Run, [], bytes_of, fault, memcpy, negsuc, none, null_pointer, ok, poke, pos, some,
  suc, zero, zeros, ℕ, ℤ, ◌%◌, ◌++◌, ◌+◌, ◌/◌, ◌^◌, ◌∷◌,
}
use bit_computer.Fs.Layout.{block_size}
use bit_computer.Fs.State.{malloc}

-- What has been sent over the line, what will arrive, and the heap. `serial_readbyte` waits for a byte.
pub record Line : Type 0 where
  pub sent : List ℕ
  pub incoming : ℕ → ℕ
  pub heap : ℕ

unfoldable pub serial_writebyte : ℕ → Line → Line
serial_writebyte c l = record l { sent = l.sent ++ (c ∷ []) }

unfoldable pub serial_readbyte : Line → ℕ × Line
serial_readbyte l = (l.incoming 0, record l { incoming = λ k. l.incoming (k + 1) })

-- `Packet`; the magic string is given without its final null.
pub record Packet : Type 0 where
  pub magic : List ℕ
  pub content_length : ℕ
  pub body : Bytes

-- `sizeof(Packet)`: two pointers and a word of two bytes each.
abbrev pub packet_size : ℕ
packet_size = 6

abbrev pub cmdmode : List ℕ
cmdmode = b'@' ∷ b'c' ∷ b'm' ∷ b'd' ∷ b'm' ∷ b'o' ∷ b'd' ∷ b'e' ∷ []

unfoldable pub send_magic : List ℕ → Line → Line
unfolding serial_writebyte
send_magic [] l = l
send_magic (c ∷ cs) l = send_magic cs (serial_writebyte c l)

unfoldable pub send_cl : ℕ → Line → Line
unfolding serial_writebyte
send_cl n l = serial_writebyte (n / 2 ^ 8) (serial_writebyte (n % 256) l)

-- `n` rounds from byte `i` on.
unfoldable pub send_body : ℕ → ℕ → Bytes → Line → Line
unfolding serial_writebyte
send_body zero i body l = l
send_body (suc n) i body l = send_body n (i + 1) body (serial_writebyte (body i) l)

unfoldable pub send_packet : Packet → Line → Line
send_packet p l =
    send_body p.content_length 0 p.body (send_cl p.content_length (send_magic p.magic l))

-- The loop that fills the buffer, `n` rounds from byte `i` on.
unfoldable pub receive : ℕ → ℕ → Bytes → Line → Bytes × Line
unfolding serial_readbyte
receive zero i buf l = (buf, l)
receive (suc n) i buf l = let (c, l') = serial_readbyte l in receive n (i + 1) (poke buf i c) l'

-- A block's number is cut to a byte.
abbrev pub read_body : ℕ → Bytes
read_body block = poke (poke zeros 0 b'R') 1 (block % 256)

abbrev pub write_body : ℕ → Bytes → Bytes
write_body block bytes = memcpy (poke (poke zeros 0 b'W') 1 (block % 256)) 2 bytes block_size

-- The result of `malloc` is not tested. The body stands on the stack.
unfoldable pub disk_read : ℕ → Bytes → Line → Run (Bytes × Line)
disk_read block buf l = elim (malloc packet_size l.heap) [
  | none ↦ fault null_pointer
  | some _ ↦
      let sent =
        send_packet (record { magic = cmdmode; content_length = 2; body = read_body block }) l in
      ok (receive block_size 0 buf sent)
]

abbrev pub body_size : ℕ
body_size = 1 + (block_size + 2)

-- The body of the packet is not freed.
unfoldable pub disk_write : ℕ → Bytes → Line → ℤ × Line
disk_write block bytes l = elim (malloc body_size l.heap) [
  | none ↦ (negsuc 0, l)
  | some heap ↦ elim (malloc packet_size heap) [
    | none ↦ (negsuc 0, record l { heap = heap })
    | some _ ↦
        let sent =
          send_packet
            (record {
              magic = cmdmode;
              content_length = 2 + block_size;
              body = write_body block bytes;
            })
            l in
        (pos 0, record sent { heap = heap })
  ]
]

-- A packet: the magic string, the length with its low byte first, the body.
unfoldable pub frame : List ℕ → ℕ → Bytes → List ℕ
frame magic n body = magic ++ (n % 256 ∷ n / 256 ∷ bytes_of n 0 body)
