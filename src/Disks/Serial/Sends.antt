-- ===== src/Disks/Serial/Sends.antt =====
-- The bytes that the disk over the serial line sends and receives.
use bit_computer.Common.{
  Bytes, List, [], ap, append-nil, append_assoc, arith, bytes_of, dec_lt, if◌then◌else◌, leb,
  le→ltb, ltb, lt→ltb, negsuc, ok, poke, pos, refl, suc, sym, zero, ℕ, ◌%◌, ◌&&◌, ◌++◌, ◌+◌, ◌-◌,
  ◌/◌, ◌∙◌, ◌∷◌, ◌≡◌, ◌≤◌,
}
use bit_computer.Disks.Serial.{
  Line, body_size, cmdmode, disk_read, disk_write, frame, packet_size, read_body, receive,
  send_body, send_cl, send_magic, send_packet, serial_readbyte, serial_writebyte, write_body,
}
use bit_computer.Fs.Layout.{block_size}
use bit_computer.Fs.State.{malloc_null, malloc_ok}

send_magic_lem : (cs : List ℕ) (l : Line) → send_magic cs l ≡ record l { sent = l.sent ++ cs }
unfolding send_magic serial_writebyte
send_magic_lem [] l = ap (λ x. record l { sent = x }) (sym (append-nil l.sent))
send_magic_lem (c ∷ cs) l =
    send_magic_lem cs (serial_writebyte c l)
    ∙ ap (λ x. record l { sent = x }) (append_assoc l.sent (c ∷ []) cs)

send_body_lem :
    (n i : ℕ) (body : Bytes) (l : Line)
    → send_body n i body l ≡ record l { sent = l.sent ++ bytes_of n i body }
unfolding send_body serial_writebyte bytes_of
send_body_lem zero i body l = ap (λ x. record l { sent = x }) (sym (append-nil l.sent))
send_body_lem (suc n) i body l =
    send_body_lem n (i + 1) body (serial_writebyte (body i) l)
    ∙ ap (λ x. record l { sent = x }) (append_assoc l.sent (body i ∷ []) (bytes_of n (i + 1) body))

append_parts :
    (s m b : List ℕ) (x y : ℕ) → s ++ m ++ (x ∷ []) ++ (y ∷ []) ++ b ≡ s ++ (m ++ (x ∷ y ∷ b))
append_parts s m b x y =
    append_assoc (s ++ m ++ (x ∷ [])) (y ∷ []) b
    ∙ append_assoc (s ++ m) (x ∷ []) (y ∷ b)
    ∙ append_assoc s m (x ∷ y ∷ b)

send_packet_lem :
    (magic : List ℕ) (n : ℕ) (body : Bytes) (l : Line)
    → send_packet (record { magic = magic; content_length = n; body = body }) l
      ≡ record l { sent = l.sent ++ frame magic n body }
unfolding send_packet send_cl serial_writebyte frame
send_packet_lem magic n body l =
    send_body_lem n 0 body (send_cl n (send_magic magic l))
    ∙ rw (send_magic_lem magic l) (
        ap (λ x. record l { sent = x })
          (append_parts l.sent magic (bytes_of n 0 body) (n % 256) (n / 256)))

shift : (n k : ℕ) → n + k + 1 ≡ suc n + k
shift n k = omega arith

start : (k : ℕ) → k ≡ 0 + k
start k = omega arith

receive_lem :
    (n i : ℕ) (buf : Bytes) (l : Line)
    → ((k : ℕ)
        → (receive n i buf l).0 k
          ≡ (if leb i k && ltb k (i + n) then l.incoming (k - i) else buf k))
      × ((receive n i buf l).1 ≡ record l { incoming = λ k. l.incoming (n + k) })
unfolding receive serial_readbyte
receive_lem zero i buf l =
    (λ k. ground arith, λ t. record l { incoming = λ k. l.incoming (start k t) })
receive_lem (suc n) i buf l =
    let (got, rest) = receive_lem n (i + 1) (poke buf i (l.incoming 0)) (serial_readbyte l).1 in
    (λ k. got k ∙ ground arith, rest ∙ (λ t. record l { incoming = λ k. l.incoming (shift n k t) }))

-- `disk_write` sends one packet, `W`, the block and its 512 bytes, and returns 0; the body of the
-- packet is lost to the heap. Without memory for the body and the packet it returns -1 and sends
-- nothing, and if there was memory for the body alone this is lost.
pub disk_write-frame :
    (block : ℕ) (bytes : Bytes) (l : Line)
    → disk_write block bytes l ≡ (
        if ltb l.heap body_size
        then (negsuc 0, l)
        else if ltb l.heap (body_size + packet_size)
        then (negsuc 0, record l { heap = l.heap - body_size })
        else (
          pos 0,
          record l {
            sent = l.sent ++ frame cmdmode (block_size + 2) (write_body block bytes);
            heap = l.heap - body_size;
          },
        ))
unfolding disk_write
disk_write-frame block bytes l = elim (dec_lt l.heap body_size) [
  | yes h ↦ rw (malloc_null body_size l.heap h, lt→ltb _ _ h, disk_write) refl
  | no h ↦ elim (dec_lt l.heap (body_size + packet_size)) [
    | yes h' ↦
        rw
          (
            malloc_ok body_size l.heap (omega arith),
            le→ltb l.heap body_size (omega arith),
            lt→ltb _ _ h',
            disk_write,
          )
          (rw (malloc_null packet_size (l.heap - body_size) (omega arith)) refl)
    | no h' ↦
        rw
          (
            malloc_ok body_size l.heap (omega arith),
            le→ltb l.heap body_size (omega arith),
            le→ltb l.heap (body_size + packet_size) (omega arith),
            disk_write,
          )
          (rw (malloc_ok packet_size (l.heap - body_size) (omega arith)) (
            ap (λ (m : Line). (pos 0, record m { heap = l.heap - body_size }))
              (send_packet_lem cmdmode (2 + block_size) (write_body block bytes) l)))
  ]
]

-- With memory for the packet, `disk_read` sends one packet, `R` and the block, and fills the buffer with
-- the next 512 bytes that arrive, which it takes off the line; the heap is as before.
pub disk_read-frame :
    (block : ℕ) (buf : Bytes) (l : Line)
    → packet_size ≤ l.heap
    → (buf' : Bytes) × (disk_read block buf l
        ≡ ok (
          buf',
          record l {
            sent = l.sent ++ frame cmdmode 2 (read_body block);
            incoming = λ k. l.incoming (block_size + k);
          },
        ))
      × ((k : ℕ) → buf' k ≡ (if ltb k block_size then l.incoming k else buf k))
unfolding disk_read
disk_read-frame block buf l h =
    let sent : Line = record l { sent = l.sent ++ frame cmdmode 2 (read_body block) } in
    let (got, rest) = receive_lem block_size 0 buf sent in
    (
      (receive block_size 0 buf sent).0,
      rw (malloc_ok packet_size l.heap h, send_packet_lem cmdmode 2 (read_body block) l, disk_read)
          (ap (λ (m : Line). ok ((receive block_size 0 buf sent).0, m)) rest),
      λ k. got k ∙ ground arith,
    )
