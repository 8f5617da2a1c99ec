-- ===== src/Server/Tokens/Text.antt =====
-- Bytes that are no packet.
use bit_computer.Common.{
  ==_ne, List, [], arith, bytes_of, from_list, ok, refl, suc, zero, ℕ, ◌++◌, ◌<◌, ◌∷◌, ◌≡◌, ◌≢◌,
}
use bit_computer.Server.Tokens.{submit, submit_all, submit_magic, token_length, token_start}
use bit_computer.Server.Tokens.Packet.{waiting}

-- A byte that does not begin a packet is text.
pub submit-text :
    (c : ℕ) (old : List ℕ) (cl : ℕ)
    → c ≢ b'@'
    → submit c (waiting old cl) ≡ ok (record (waiting old cl) { text_data = c ∷ [] })
unfolding submit submit_magic from_list
submit-text c old cl h = rw (==_ne c 64 h) refl

-- A packet that directly follows the beginning of one is not recognised: the beginning and the magic string
-- become text, since the byte that breaks a match is not matched again.
pub submit_all-missed :
    (k : ℕ) (old : List ℕ) (cl : ℕ)
    → 0 < k
    → k < token_length
    → submit_all (bytes_of k 0 (from_list token_start) ++ token_start) (waiting old cl)
      ≡ ok (record (waiting old cl) {
        text_data = bytes_of k 0 (from_list token_start) ++ token_start;
      })
unfolding submit_all submit submit_magic from_list bytes_of
submit_all-missed zero old cl h h' = absurd (omega arith)
submit_all-missed (suc zero) old cl h h' = refl
submit_all-missed (suc (suc zero)) old cl h h' = refl
submit_all-missed (suc (suc (suc zero))) old cl h h' = refl
submit_all-missed (suc (suc (suc (suc zero)))) old cl h h' = refl
submit_all-missed (suc (suc (suc (suc (suc zero))))) old cl h h' = refl
submit_all-missed (suc (suc (suc (suc (suc (suc zero)))))) old cl h h' = refl
submit_all-missed (suc (suc (suc (suc (suc (suc (suc zero))))))) old cl h h' = refl
submit_all-missed (suc (suc (suc (suc (suc (suc (suc (suc k)))))))) old cl h h' =
    absurd (omega arith)
