-- ===== src/Server/Receives.antt =====
-- What the server does with the bytes that arrive.
use bit_computer.Common.{
  Bytes, List, [], ap, append-nil, append_assoc, arith, bind_ok, bytes_of, from_list, ok, refl, suc,
  sym, zero, ℕ, ◌%◌, ◌*◌, ◌++◌, ◌+◌, ◌-◌, ◌/◌, ◌<◌, ◌>>=◌, ◌^◌, ◌∙◌, ◌∷◌, ◌≡◌, ◌≢◌,
}
use bit_computer.Disks.Serial.{cmdmode, frame}
use bit_computer.Server.{Server, handle_token, on_byte, on_bytes, print}
use bit_computer.Server.Disk.{HostDisk}
use bit_computer.Server.Tokens.{Tokenizer, data_text, next, submit, submit_magic, token_start}
use bit_computer.Server.Tokens.Packet.{receiving, submit-last, submit-receiving, waiting}
use bit_computer.Server.Tokens.Text.{submit-text}

-- A server between packets.
abbrev pub idle : List ℕ → ℕ → HostDisk → List ℕ → List ℕ → Server
idle old cl disk written printed = record {
  tokenizer = waiting old cl;
  disk = disk;
  written = written;
  printed = printed;
}

module _ (disk : HostDisk) (written : List ℕ) (printed : List ℕ) where
  -- A server in a packet.
  abbrev busy : Tokenizer → Server
  busy t = record { tokenizer = t; disk = disk; written = written; printed = printed }

  on_byte-quiet :
      (c : ℕ) (t t' : Tokenizer)
      → submit c t ≡ ok t'
      → t'.tokens ≡ []
      → t'.text_data ≡ []
      → on_byte c (busy t) ≡ ok (busy (record t' { text_data = [] }))
  unfolding on_byte next data_text print
  on_byte-quiet c t t' run none_yet quiet =
      rw (run, on_byte) (rw (none_yet, on_byte) (rw quiet refl))

  on_bytes-header :
      (n : ℕ) (old : List ℕ) (cl : ℕ) (body : Bytes) (rest : List ℕ)
      → n < 2 ^ 16
      → on_bytes (token_start ++ (n % 256 ∷ n / 256 ∷ rest)) (busy (waiting old cl))
        ≡ on_bytes rest (busy (receiving n 0 body))
  unfolding on_bytes on_byte next data_text print submit submit_magic from_list bytes_of
  on_bytes-header n old cl body rest h =
      let e : (n / 256 * 2 ^ 8 % 2 ^ 16 + n % 256) % 2 ^ 16 ≡ n = omega arith in
      ap (λ m. on_bytes rest (busy (record (receiving n 0 body) { content_length = m }))) e

  on_byte-last :
      (i : ℕ) (body : Bytes)
      → on_byte (body i) (busy (receiving (i + 1) i body))
        ≡ handle_token (bytes_of (i + 1) 0 body) (busy (waiting [] (i + 1)))
  unfolding on_byte next
  on_byte-last i body = rw (submit-last i body, on_byte) refl

  on_bytes-data :
      (r i n : ℕ) (body : Bytes) (rest : List ℕ)
      → i + suc r ≡ n
      → on_bytes (bytes_of (suc r) i body ++ rest) (busy (receiving n i body))
        ≡ (handle_token (bytes_of n 0 body) (busy (waiting [] n)) >>= on_bytes rest)
  unfolding on_bytes bytes_of
  on_bytes-data zero i n body rest e =
      (let all : n ≡ i + 1 = omega arith in rw (all, on_byte-last i body) refl)
  on_bytes-data (suc r) i n body rest e =
      rw
        (on_byte-quiet (body i) (receiving n i body) (receiving n (i + 1) body)
          (submit-receiving n i body (omega arith)) refl refl)
        (on_bytes-data r (i + 1) n body rest (omega arith))

  -- A packet of 1 to 65535 bytes is handled when its last byte has arrived, whatever follows.
  on_bytes-frame :
      (n : ℕ) (old : List ℕ) (cl : ℕ) (body : Bytes) (rest : List ℕ)
      → 0 < n
      → n < 2 ^ 16
      → on_bytes (frame cmdmode n body ++ rest) (idle old cl disk written printed)
        ≡ (handle_token (bytes_of n 0 body) (idle [] n disk written printed) >>= on_bytes rest)
  unfolding frame
  on_bytes-frame n old cl body rest more small =
      let some_bytes : n ≡ suc (n - 1) = omega arith in
      on_bytes-header n old cl body (bytes_of n 0 body ++ rest) small
      ∙ ap (λ k. on_bytes (bytes_of k 0 body ++ rest) (busy (receiving n 0 body))) some_bytes
      ∙ on_bytes-data (n - 1) 0 n body rest (omega arith)

  -- The same with nothing after it.
  pub on_bytes-frame_alone :
      (n : ℕ) (old : List ℕ) (cl : ℕ) (body : Bytes)
      → 0 < n
      → n < 2 ^ 16
      → on_bytes (frame cmdmode n body) (idle old cl disk written printed)
        ≡ handle_token (bytes_of n 0 body) (idle [] n disk written printed)
  unfolding on_bytes
  on_bytes-frame_alone n old cl body more small =
      ap (λ l. on_bytes l (idle old cl disk written printed))
        (sym (append-nil (frame cmdmode n body)))
      ∙ on_bytes-frame n old cl body [] more small
      ∙ bind_ok (handle_token (bytes_of n 0 body) (idle [] n disk written printed)) (on_bytes [])
          (λ s. refl)

-- No byte is an `@`.
abbrev NoAt : List ℕ → Type 0
NoAt [] = Unit
NoAt (c ∷ cs) = (c ≢ b'@') × NoAt cs

-- Text between packets that has no `@` is printed as it arrives, and nothing else happens.
on_bytes-text :
    (cs : List ℕ) (old : List ℕ) (cl : ℕ) (disk : HostDisk) (written printed : List ℕ)
    → NoAt cs
    → on_bytes cs (idle old cl disk written printed) ≡ ok (idle old cl disk written (printed ++ cs))
unfolding on_bytes on_byte next data_text print
on_bytes-text [] old cl disk written printed h =
    ap (λ p. ok (idle old cl disk written p)) (sym (append-nil printed))
on_bytes-text (c ∷ cs) old cl disk written printed (ne, h) =
    rw (submit-text c old cl ne, on_byte)
      (on_bytes-text cs old cl disk written (printed ++ (c ∷ [])) h
        ∙ ap (λ p. ok (idle old cl disk written p)) (append_assoc printed (c ∷ []) cs))
