-- ===== src/Server/Witnesses.antt =====
-- The theorems on the server with small packets.

use bit_computer.Common.{Bytes, [], arith, bytes_of, from_list, ok, ◌++◌, ◌+◌, ◌∷◌, ◌≡◌}
use bit_computer.Disks.Serial.{cmdmode, frame}
use bit_computer.Server.Tokens.{Tokenizer, new_tokenizer, submit_all, token_start}
use bit_computer.Server.Tokens.Packet.{submit_all-empty_frame, submit_all-frame}
use bit_computer.Server.Tokens.Text.{submit_all-missed}

-- Three bytes.
abbrev three : Bytes
three k = k + 7

submit_all-frame_example :
    submit_all (frame cmdmode 3 three) new_tokenizer
    ≡ ok (record new_tokenizer { tokens = (7 ∷ 8 ∷ 9 ∷ []) ∷ []; content_length = 3 })
unfolding new_tokenizer bytes_of
submit_all-frame_example = submit_all-frame 3 [] 0 three (omega arith) (omega arith)

submit_all-empty_frame_example :
    (t : Tokenizer) × (submit_all (frame cmdmode 0 three ++ (1 ∷ 2 ∷ [])) new_tokenizer ≡ ok t)
    × (t.tokens ≡ [])
    × (t.text_data ≡ [])
unfolding new_tokenizer
submit_all-empty_frame_example = submit_all-empty_frame (1 ∷ 2 ∷ []) [] 0 three

submit_all-missed_example :
    submit_all (bytes_of 1 0 (from_list token_start) ++ token_start) new_tokenizer
    ≡ ok (record new_tokenizer { text_data = b'@' ∷ token_start })
unfolding new_tokenizer bytes_of from_list
submit_all-missed_example = submit_all-missed 1 [] 0 (omega arith) (omega arith)
