-- ===== src/Server/Tokens.antt =====
-- serial/tokenizer.go: the packets are taken out of the bytes that arrive, the rest is text.
pub mod Packet
pub mod Text
use bit_computer.Common.{
  List, Option, Run, [], exited, fault, from_list, if◌then◌else◌, ltb, none, ok, some, suc, zero, ℕ,
  ◌%◌, ◌*◌, ◌++◌, ◌+◌, ◌==◌, ◌>>=◌, ◌^◌, ◌∷◌,
}

pub data TokenizerState : Type 0 where
  magic_value data_size data_size_second_byte data_read : TokenizerState

-- `tokenizer`. A `bytes.Buffer` is the list of the bytes that have not been read.
pub record Tokenizer : Type 0 where
  pub curr_to_match : ℕ
  pub token_data : List ℕ
  pub text_data : List ℕ
  pub potential_text_data : List ℕ
  pub tokens : List (List ℕ)
  pub state : TokenizerState
  pub content_length : ℕ
  pub bytes_count : ℕ

-- `tokenStart`
abbrev pub token_start : List ℕ
token_start = b'@' ∷ b'c' ∷ b'm' ∷ b'd' ∷ b'm' ∷ b'o' ∷ b'd' ∷ b'e' ∷ []

abbrev pub token_length : ℕ
token_length = 8

unfoldable pub new_tokenizer : Tokenizer
new_tokenizer = record {
  curr_to_match = 0;
  token_data = [];
  text_data = [];
  potential_text_data = [];
  tokens = [];
  state = magic_value;
  content_length = 0;
  bytes_count = 0;
}

-- `Read` into a slice of `n` bytes: what the buffer has of them, zeros after it, and the buffer's rest.
unfoldable pub read_buffer : ℕ → List ℕ → List ℕ × List ℕ
read_buffer zero buffer = ([], buffer)
read_buffer (suc n) [] = (let (read, rest) = read_buffer n [] in (0 ∷ read, rest))
read_buffer (suc n) (x ∷ xs) = (let (read, rest) = read_buffer n xs in (x ∷ read, rest))

-- The branch of `submit` for the magic string. No other branch follows it in the same call.
unfoldable pub submit_magic : ℕ → Tokenizer → Run Tokenizer
submit_magic val t =
    let potential = t.potential_text_data ++ (val ∷ []) in
    let matched = t.curr_to_match + 1 in
    if ltb t.curr_to_match token_length
    then (if val == from_list token_start t.curr_to_match
        then (if matched == token_length
            then ok (record t {
              potential_text_data = [];
              curr_to_match = 0;
              state = data_size;
              content_length = 0;
              bytes_count = 0;
              token_data = [];
            })
            else ok (record t { potential_text_data = potential; curr_to_match = matched }))
        else ok (record t {
          text_data = t.text_data ++ potential;
          potential_text_data = [];
          curr_to_match = 0;
        }))
    else fault exited

-- The branch for the data.
unfoldable pub submit_data : ℕ → Tokenizer → Tokenizer
submit_data val t =
    let count = t.bytes_count + 1 in
    let received = t.token_data ++ (val ∷ []) in
    let (read, rest) = read_buffer count received in
    if count == t.content_length
    then record t {
      state = magic_value;
      bytes_count = 0;
      token_data = rest;
      tokens = t.tokens ++ (read ∷ []);
    }
    else record t { bytes_count = count; token_data = received }

unfoldable pub submit : ℕ → Tokenizer → Run Tokenizer
submit val t = elim t.state [
  | magic_value ↦ submit_magic val t
  | data_size ↦ ok (record t { content_length = val; state = data_size_second_byte })
  | data_size_second_byte ↦ ok (record t {
    content_length = (val * 2 ^ 8 % 2 ^ 16 + t.content_length) % 2 ^ 16;
    state = data_read;
  })
  | data_read ↦ ok (submit_data val t)
]

unfoldable pub next : Tokenizer → Option (List ℕ) × Tokenizer
next t = elim t.tokens [ [] ↦ (none, t) | head ∷ rest ↦ (some head, record t { tokens = rest }) ]

-- `data()`: the text, which is taken out.
unfoldable pub data_text : Tokenizer → List ℕ × Tokenizer
data_text t = (t.text_data, record t { text_data = [] })

unfoldable pub submit_all : List ℕ → Tokenizer → Run Tokenizer
submit_all [] t = ok t
submit_all (c ∷ cs) t = submit c t >>= submit_all cs
