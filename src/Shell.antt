-- ===== src/Shell.antt =====
-- shell_in_c/main.c: the line that is read and the command that it stands for.
pub mod Terminal
pub mod Commands
pub mod Compare
pub mod Dispatch
pub mod Input
pub mod Loop
mod Witnesses
use bit_computer.Common.{
  Bytes, List, Option, Run, [], fault, from_list, if◌then◌else◌, indeterminate, is_zero, ltb,
  negsuc, none, ok, out_of_bounds, poke, pos, some, suc, zero, zeros, ℕ, ℤ, ◌&&◌, ◌+◌, ◌-◌, ◌==◌,
  ◌>>=◌, ◌∷◌,
}

-- The rounds of `my_strncmp` from index `i` on, `n` of them left. A `char` has no sign. When the rounds are
-- used up the function ends with no `return`, and its value is used.
unfoldable pub strncmp_loop : ℕ → ℕ → Bytes → Bytes → Run ℤ
strncmp_loop zero i s t = fault indeterminate
strncmp_loop (suc n) i s t =
    let rest = strncmp_loop n (i + 1) s t in
    if (s i == 0) && (t i == 0)
    then ok (pos 0)
    else if s i == 0
    then ok (negsuc 0)
    else if t i == 0
    then ok (pos 1)
    else if s i == t i
    then rest
    else ok (if ltb (t i) (s i) then pos (s i - t i) else negsuc (t i - s i - 1))

unfoldable pub my_strncmp : Bytes → Bytes → ℕ → Run ℤ
unfolding strncmp_loop
my_strncmp s t count = strncmp_loop count 0 s t

-- The branches of the main loop.
pub data Command : Type 0 where
  info spi fsfmt fsmnt fscreate fsread fswrite fsstat fsfind ledon ledoff wozmon not_found : Command

-- The string and the count of each comparison, in the order of the source.
abbrev pub commands : List (List ℕ × ℕ × Command)
commands =
    (b'i' ∷ b'n' ∷ b'f' ∷ b'o' ∷ [], 4, info)
    ∷ (b's' ∷ b'p' ∷ b'i' ∷ [], 3, spi)
    ∷ (b'f' ∷ b's' ∷ b'f' ∷ b'm' ∷ b't' ∷ [], 5, fsfmt)
    ∷ (b'f' ∷ b's' ∷ b'm' ∷ b'n' ∷ b't' ∷ [], 5, fsmnt)
    ∷ (b'f' ∷ b's' ∷ b'c' ∷ b'r' ∷ b'e' ∷ b'a' ∷ b't' ∷ b'e' ∷ [], 8, fscreate)
    ∷ (b'f' ∷ b's' ∷ b'r' ∷ b'e' ∷ b'a' ∷ b'd' ∷ [], 6, fsread)
    ∷ (b'f' ∷ b's' ∷ b'w' ∷ b'r' ∷ b'i' ∷ b't' ∷ b'e' ∷ [], 7, fswrite)
    ∷ (b'f' ∷ b's' ∷ b's' ∷ b't' ∷ b'a' ∷ b't' ∷ [], 6, fsstat)
    ∷ (b'f' ∷ b's' ∷ b'f' ∷ b'i' ∷ b'n' ∷ b'd' ∷ [], 6, fsfind)
    ∷ (b'l' ∷ b'e' ∷ b'd' ∷ b'o' ∷ b'n' ∷ [], 5, ledon)
    ∷ (b'l' ∷ b'e' ∷ b'd' ∷ b'o' ∷ b'f' ∷ b'f' ∷ [], 6, ledoff)
    ∷ (b'w' ∷ b'o' ∷ b'z' ∷ b'm' ∷ b'o' ∷ b'n' ∷ [], 6, wozmon)
    ∷ []

-- The chain of comparisons.
unfoldable pub dispatch_among : List (List ℕ × ℕ × Command) → Bytes → Run Command
dispatch_among [] buff = ok not_found
dispatch_among ((word, count, cmd) ∷ rest) buff = do
  r ← my_strncmp buff (from_list word) count
  if is_zero r then ok cmd else dispatch_among rest buff

unfoldable pub dispatch : Bytes → Run Command
dispatch buff = dispatch_among commands buff

abbrev pub buff_size : ℕ
buff_size = 64

-- `buff` and `currentIndex`.
pub record LineInput : Type 0 where
  pub buff : Bytes
  pub current_index : ℕ

-- A round of the main loop with the next character: the line's command, if the line is complete.
-- The buffer is then cleared.
unfoldable pub on_char : ℕ → LineInput → Run (Option Command × LineInput)
on_char c st =
    if ltb st.current_index buff_size
    then (let buff = poke st.buff st.current_index c in
        if c == b'\r'
        then (do cmd ← dispatch buff; ok (some cmd, record { buff = zeros; current_index = 0 }))
        else ok (none, record { buff = buff; current_index = st.current_index + 1 }))
    else fault out_of_bounds

-- `n` characters from character `i` on.
unfoldable pub type_chars : ℕ → ℕ → Bytes → LineInput → Run LineInput
type_chars zero i cs st = ok st
type_chars (suc n) i cs st = do (_, st') ← on_char (cs i) st; type_chars n (i + 1) cs st'
