-- ===== src/Shell/Input.antt =====
-- The line that is being typed.
use bit_computer.Common.{
  ==_ne, Bytes, arith, dec_lt, fault, if◌then◌else◌, leb, le→leb, le→ltb, ltb, lt→leb, lt→ltb, none,
  ok, out_of_bounds, poke, refl, suc, zero, ℕ, ◌&&◌, ◌+◌, ◌-◌, ◌<◌, ◌∙◌, ◌≡◌, ◌≢◌, ◌≤◌,
}
use bit_computer.Shell.{LineInput, buff_size, on_char, type_chars}

pub on_char-other :
    (c : ℕ) (st : LineInput)
    → st.current_index < buff_size
    → c ≢ b'\r'
    → on_char c st
      ≡ ok (
        none,
        record { buff = poke st.buff st.current_index c; current_index = st.current_index + 1 },
      )
unfolding on_char
on_char-other c st h ne = rw (lt→ltb _ _ h, ==_ne c 13 ne) refl

on_char-outside :
    (c : ℕ) (st : LineInput) → buff_size ≤ st.current_index → on_char c st ≡ fault out_of_bounds
unfolding on_char
on_char-outside c st h = rw (le→ltb st.current_index buff_size h) refl

-- Characters that are no return, typed into a line, stand in the buffer one after the other as long as
-- the line has 64 characters at most; with one more the shell writes past the end of the buffer.
pub type_chars_lem :
    (n i : ℕ) (cs : Bytes) (st : LineInput)
    → st.current_index ≤ buff_size
    → ((k : ℕ) → i ≤ k → k < i + n → cs k ≢ b'\r')
    → (st' : LineInput) × (type_chars n i cs st
        ≡ (if leb (st.current_index + n) buff_size then ok st' else fault out_of_bounds))
      × (st'.current_index ≡ st.current_index + n)
      × ((k : ℕ)
          → st'.buff k ≡ (
              if leb st.current_index k && ltb k (st.current_index + n)
              then cs (i + (k - st.current_index))
              else st.buff k))
unfolding type_chars
type_chars_lem zero i cs st h other = (
  st,
  rw (le→leb (st.current_index + 0) buff_size (omega arith)) refl,
  omega arith,
  λ k. ground arith,
)
type_chars_lem (suc n) i cs st h other = elim (dec_lt st.current_index buff_size) [
  | no full ↦ (
    record {
      buff = λ k.
          if leb st.current_index k && ltb k (st.current_index + suc n)
          then cs (i + (k - st.current_index))
          else st.buff k;
      current_index = st.current_index + suc n;
    },
    rw
        (
          on_char-outside (cs i) st (omega arith),
          lt→leb (st.current_index + suc n) buff_size (omega arith),
        )
        refl,
    refl,
    λ k. refl,
  )
  | yes room ↦
      let st₁ : LineInput = record {
        buff = poke st.buff st.current_index (cs i);
        current_index = st.current_index + 1;
      } in
      let (st', run, index, bytes) =
        type_chars_lem n (i + 1) cs st₁ (omega arith)
          (λ k lo hi. other k (omega arith) (omega arith)) in
      let total : st.current_index + 1 + n ≡ st.current_index + suc n = omega arith in
      (
        st',
        rw (on_char-other (cs i) st room (other i (omega arith) (omega arith)), type_chars, ← total)
            run,
        omega (arith, index),
        λ k. bytes k ∙ ground arith,
      )
]
