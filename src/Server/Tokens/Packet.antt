-- ===== src/Server/Tokens/Packet.antt =====
-- A packet that is submitted byte by byte.
use bit_computer.Common.{
  ==_ne, ==_self, Bytes, List, [], ap, arith, bytes_of, bytes_of-suc, from_list, ok, refl, suc, sym,
  zero, zeros, ℕ, ◌%◌, ◌*◌, ◌++◌, ◌+◌, ◌-◌, ◌/◌, ◌<◌, ◌^◌, ◌∙◌, ◌∷◌, ◌≡◌,
}
use bit_computer.Disks.Serial.{cmdmode, frame}
use bit_computer.Server.Tokens.{
  Tokenizer, data_read, magic_value, read_buffer, submit, submit_all, submit_data, submit_magic,
  token_start,
}

-- Between packets, with no partial match, no token and no text left.
abbrev pub waiting : List ℕ → ℕ → Tokenizer
waiting old cl = record {
  curr_to_match = 0;
  token_data = old;
  text_data = [];
  potential_text_data = [];
  tokens = [];
  state = magic_value;
  content_length = cl;
  bytes_count = 0;
}

-- In a packet of `n` bytes of data, `i` of which have been received.
abbrev pub receiving : ℕ → ℕ → Bytes → Tokenizer
receiving n i body = record {
  curr_to_match = 0;
  token_data = bytes_of i 0 body;
  text_data = [];
  potential_text_data = [];
  tokens = [];
  state = data_read;
  content_length = n;
  bytes_count = i;
}

-- A full read of the buffer gives all of it.
read_buffer-bytes_of :
    (n i : ℕ) (body : Bytes) → read_buffer n (bytes_of n i body) ≡ (bytes_of n i body, [])
unfolding read_buffer bytes_of
read_buffer-bytes_of zero i body = refl
read_buffer-bytes_of (suc n) i body =
    ap (λ (p : List ℕ × List ℕ). (body i ∷ p.0, p.1)) (read_buffer-bytes_of n (i + 1) body)

-- The magic string and the length.
submit_all-header :
    (n : ℕ) (old : List ℕ) (cl : ℕ) (body : Bytes) (rest : List ℕ)
    → n < 2 ^ 16
    → submit_all (token_start ++ (n % 256 ∷ n / 256 ∷ rest)) (waiting old cl)
      ≡ submit_all rest (receiving n 0 body)
unfolding submit_all submit submit_magic from_list bytes_of
submit_all-header n old cl body rest h =
    let e : (n / 256 * 2 ^ 8 % 2 ^ 16 + n % 256) % 2 ^ 16 ≡ n = omega arith in
    ap (λ m. submit_all rest (record (receiving n 0 body) { content_length = m })) e

grow : (i : ℕ) (body : Bytes) → bytes_of i 0 body ++ (body i ∷ []) ≡ bytes_of (i + 1) 0 body
grow i body =
    ap (λ k. bytes_of i 0 body ++ (body k ∷ [])) (omega arith)
    ∙ sym (bytes_of-suc i 0 body)
    ∙ ap (λ k. bytes_of k 0 body) (omega arith)

-- A byte of the data that is not the last, and the last one.
pub submit-receiving :
    (n i : ℕ) (body : Bytes)
    → i + 1 < n
    → submit (body i) (receiving n i body) ≡ ok (receiving n (i + 1) body)
unfolding submit submit_data
submit-receiving n i body h = rw (grow i body, ==_ne (i + 1) n (omega arith), submit_data) refl

pub submit-last :
    (i : ℕ) (body : Bytes)
    → submit (body i) (receiving (i + 1) i body)
      ≡ ok (record (waiting [] (i + 1)) { tokens = bytes_of (i + 1) 0 body ∷ [] })
unfolding submit submit_data
submit-last i body =
    rw (grow i body, read_buffer-bytes_of (i + 1) 0 body, ==_self (i + 1), submit_data) refl

-- The data, from byte `i` on.
submit_all-data :
    (r i n : ℕ) (body : Bytes)
    → i + suc r ≡ n
    → submit_all (bytes_of (suc r) i body) (receiving n i body)
      ≡ ok (record (waiting [] n) { tokens = bytes_of n 0 body ∷ [] })
unfolding submit_all bytes_of
submit_all-data zero i n body e =
    let last : n ≡ i + 1 = omega arith in rw (last, submit-last i body) refl
submit_all-data (suc r) i n body e =
    rw (submit-receiving n i body (omega arith)) (submit_all-data r (i + 1) n body (omega arith))

-- A packet of 1 to 65535 bytes of data that arrives between packets gives just these bytes as a token,
-- and the tokenizer is between packets again, with no text.
pub submit_all-frame :
    (n : ℕ) (old : List ℕ) (cl : ℕ) (body : Bytes)
    → 0 < n
    → n < 2 ^ 16
    → submit_all (frame cmdmode n body) (waiting old cl)
      ≡ ok (record (waiting [] n) { tokens = bytes_of n 0 body ∷ [] })
unfolding frame
submit_all-frame n old cl body more small =
    let some_bytes : n ≡ suc (n - 1) = omega arith in
    submit_all-header n old cl body (bytes_of n 0 body) small
    ∙ ap (λ k. submit_all (bytes_of k 0 body) (receiving n 0 body)) some_bytes
    ∙ submit_all-data (n - 1) 0 n body (omega arith)

-- In a packet of no data, after `i` bytes.
abbrev stuck : ℕ → List ℕ → Tokenizer
stuck i received = record (receiving 0 0 zeros) { bytes_count = i; token_data = received }

never_ends :
    (cs : List ℕ) (i : ℕ) (received : List ℕ)
    → (t : Tokenizer) × (submit_all cs (stuck i received) ≡ ok t)
      × (t.tokens ≡ [])
      × (t.text_data ≡ [])
unfolding submit_all submit submit_data bytes_of
never_ends [] i received = (stuck i received, refl, refl, refl)
never_ends (c ∷ cs) i received =
    let (t, run, tokens, text) = never_ends cs (i + 1) (received ++ (c ∷ [])) in
    (t, rw (==_ne (i + 1) 0 (omega arith), submit_data) run, tokens, text)

-- A packet with no data never ends: whatever is submitted after it, no token appears and no text.
pub submit_all-empty_frame :
    (cs : List ℕ) (old : List ℕ) (cl : ℕ) (body : Bytes)
    → (t : Tokenizer) × (submit_all (frame cmdmode 0 body ++ cs) (waiting old cl) ≡ ok t)
      × (t.tokens ≡ [])
      × (t.text_data ≡ [])
unfolding frame bytes_of
submit_all-empty_frame cs old cl body =
    let (t, run, tokens, text) = never_ends cs 0 [] in
    (t, submit_all-header 0 old cl body cs (omega arith) ∙ run, tokens, text)
