-- ===== src/Shell/Loop/Unknown.antt =====
-- A line at the shell's prompt.
use bit_computer.Common.{
  ==_iff, Bytes, Option, Run, [], ap, append-nil, append_assoc, arith, bind_ok, fault,
  if◌then◌else◌, indeterminate, inl, inr, leb, ltb, lt→ltb, ok, poke, refl, some, suc, sym, zero,
  zeros, ℕ, ◌&&◌, ◌++◌, ◌+◌, ◌-◌, ◌<◌, ◌>>=◌, ◌∙◌, ◌∷◌, ◌≡◌, ◌≢◌, ◌≤◌, ◌⊎◌,
}
use bit_computer.Fs.Disk.{DiskApi}
use bit_computer.Shell.{Command, LineInput, buff_size, commands, dispatch, not_found, on_char}
use bit_computer.Shell.Commands.{execute}
use bit_computer.Shell.Commands.Text.{raws}
use bit_computer.Shell.Dispatch.{StartsWithOne, dispatch-Answers}
use bit_computer.Shell.Input.{on_char-other}
use bit_computer.Shell.Loop.{Shell, shell_round, shell_rounds}
use bit_computer.Shell.Terminal.{Terminal, not_found_line, prompt, put, raw, take_byte, text_line}

raws_shift : (n i : ℕ) (bytes : Bytes) → raws n i (λ k. bytes (k + 1)) ≡ raws n (i + 1) bytes
unfolding raws
raws_shift zero i bytes = refl
raws_shift (suc n) i bytes = ap (λ l. raw (bytes (i + 1)) ∷ l) (raws_shift n (i + 1) bytes)

shifted :
    (at n k : ℕ) (inc buff : Bytes)
    → (if leb (at + 1) k && ltb k (at + 1 + n)
        then inc (k - (at + 1) + 1)
        else poke buff at (inc 0) k)
      ≡ (if leb at k && ltb k (at + suc n) then inc (k - at) else buff k)
shifted at n k inc buff =
    let later : at < k → inc (k - (at + 1) + 1) ≡ inc (k - at) = λ h. ap inc (omega arith) in
    let here : k ≡ at → inc 0 ≡ inc (k - at) = λ h. ap inc (omega arith) in
    ground (arith, later, here)

-- The command, with the cleared line.
abbrev ended : Run Command → Run (Option Command × LineInput)
ended r = r >>= λ cmd. ok (some cmd, record { buff = zeros; current_index = 0 })

module _ {D : DiskApi} where
  -- What has been typed so far, with its echo.
  pub record Typed (n : ℕ) (sh sh' : Shell D) : Type 0 where
    pub index : sh'.line.current_index ≡ sh.line.current_index + n
    pub bytes :
        (k : ℕ)
        → sh'.line.buff k ≡ (
            if leb sh.line.current_index k && ltb k (sh.line.current_index + n)
            then sh.terminal.incoming (k - sh.line.current_index)
            else sh.line.buff k)
    pub output : sh'.terminal.output ≡ sh.terminal.output ++ raws n 0 sh.terminal.incoming
    pub incoming : (k : ℕ) → sh'.terminal.incoming k ≡ sh.terminal.incoming (k + n)
    pub fs : sh'.terminal.fs ≡ sh.terminal.fs

  -- The line that is complete: the bytes up to the return, and behind them what stood in the buffer.
  abbrev pub line_of : ℕ → Shell D → Bytes
  line_of n sh k = if ltb k (n + 1) then sh.terminal.incoming k else sh.line.buff k

  -- After a line that is no command: the echo, a message and the next prompt have been written, the line
  -- is empty again, and the file system is as it was.
  pub record Refused (n : ℕ) (sh sh' : Shell D) : Type 0 where
    pub line_after : sh'.line ≡ record { buff = zeros; current_index = 0 }
    pub output_after :
        sh'.terminal.output
        ≡ sh.terminal.output
          ++ (raws n 0 sh.terminal.incoming
              ++ (raw b'\r' ∷ raw b'\n' ∷ text_line not_found_line ∷ text_line prompt ∷ []))
    pub incoming_after : (k : ℕ) → sh'.terminal.incoming k ≡ sh.terminal.incoming (k + (n + 1))
    pub fs_after : sh'.terminal.fs ≡ sh.terminal.fs

module _ {D : DiskApi} (other : Command → Terminal D → Run (Terminal D)) where
  -- A byte that is no return, while the line has room.
  abbrev with_char : Shell D → Shell D
  with_char sh = record {
    line = record {
      buff = poke sh.line.buff sh.line.current_index (sh.terminal.incoming 0);
      current_index = sh.line.current_index + 1;
    };
    terminal =
        put (raw (sh.terminal.incoming 0))
          (record sh.terminal { incoming = λ k. sh.terminal.incoming (k + 1) });
  }

  shell_round-char :
      (sh : Shell D)
      → sh.line.current_index < buff_size
      → sh.terminal.incoming 0 ≢ b'\r'
      → shell_round other sh ≡ ok (with_char sh)
  unfolding shell_round take_byte
  shell_round-char sh room ne = rw (on_char-other (sh.terminal.incoming 0) sh.line room ne) refl

  shell_rounds-Typed :
      (n : ℕ) (sh : Shell D)
      → sh.line.current_index + n ≤ buff_size
      → ((k : ℕ) → k < n → sh.terminal.incoming k ≢ b'\r')
      → (sh' : Shell D) × (shell_rounds other (suc n) sh ≡ shell_round other sh') × Typed n sh sh'
  unfolding shell_rounds raws put
  shell_rounds-Typed zero sh room ne = (
    sh,
    bind_ok (shell_round other sh) (λ x. ok x) (λ x. refl),
    record {
      index = omega arith;
      bytes = λ k. ground arith;
      output = sym (append-nil sh.terminal.output);
      incoming = λ k. ap sh.terminal.incoming (omega arith);
      fs = refl;
    },
  )
  shell_rounds-Typed (suc n) sh room ne =
      let inc = sh.terminal.incoming in
      let (sh', run, x) =
        shell_rounds-Typed n (with_char sh) (omega arith) (λ k h. ne (k + 1) (omega arith)) in
      (
        sh',
        rw (shell_round-char sh (omega arith) (ne 0 (omega arith)), shell_rounds) run,
        record {
          index = omega (arith, x.index);
          bytes = λ k. x.bytes k ∙ shifted sh.line.current_index n k inc sh.line.buff;
          output =
              x.output
              ∙ append_assoc sh.terminal.output (raw (inc 0) ∷ []) (raws n 0 (λ k. inc (k + 1)))
              ∙ ap (λ l. sh.terminal.output ++ (raw (inc 0) ∷ l)) (raws_shift n 0 inc);
          incoming = λ k. x.incoming k ∙ ap inc (omega arith);
          fs = x.fs;
        },
      )

  module _ (n : ℕ) (sh : Shell D) (empty : sh.line.current_index ≡ 0) (room : n < buff_size)
      (no_return : (k : ℕ) → k < n → sh.terminal.incoming k ≢ b'\r')
      (return : sh.terminal.incoming n ≡ b'\r') where
    module _ (sh' : Shell D) (x : Typed n sh sh') where
      last_char : sh'.terminal.incoming 0 ≡ b'\r'
      last_char = x.incoming 0 ∙ ap sh.terminal.incoming (omega arith) ∙ return

      complete_byte :
          (k : ℕ)
          → poke sh'.line.buff sh'.line.current_index (sh'.terminal.incoming 0) k ≡ line_of n sh k
      complete_byte k =
          let inc = sh.terminal.incoming in
          let moved : inc (k - sh.line.current_index) ≡ inc k = ap inc (omega arith) in
          let last : k ≡ n → inc k ≡ b'\r' = λ h. ap inc h ∙ return in
          ground (arith, x.index, x.bytes k, last_char, moved, last)

      complete : poke sh'.line.buff sh'.line.current_index (sh'.terminal.incoming 0) ≡ line_of n sh
      complete = λ i. λ k. complete_byte k i

      on_char-return : on_char (sh'.terminal.incoming 0) sh'.line ≡ ended (dispatch (line_of n sh))
      unfolding on_char
      on_char-return =
          rw
            (
              lt→ltb sh'.line.current_index buff_size (omega (arith, x.index)),
              (==_iff (sh'.terminal.incoming 0) b'\r').1 last_char,
            )
            (ap (λ l. ended (dispatch l)) complete)

      round-fault :
          dispatch (line_of n sh) ≡ fault indeterminate
          → shell_round other sh' ≡ fault indeterminate
      unfolding shell_round take_byte
      round-fault run = rw (on_char-return ∙ ap ended run) refl

      round-Refused :
          dispatch (line_of n sh) ≡ ok not_found
          → (sh'' : Shell D) × (shell_round other sh' ≡ ok sh'') × Refused n sh sh''
      unfolding shell_round take_byte put execute
      round-Refused run =
          let c = sh'.terminal.incoming 0 in
          let line : LineInput = record { buff = zeros; current_index = 0 } in
          let t : Terminal D = record sh'.terminal {
            incoming = λ k. sh'.terminal.incoming (k + 1);
            output =
                sh'.terminal.output
                ++ (raw c ∷ [])
                ++ (raw b'\n' ∷ [])
                ++ (text_line not_found_line ∷ [])
                ++ (text_line prompt ∷ []);
          } in
          (
            record { line = line; terminal = t },
            rw (on_char-return ∙ ap ended run) refl,
            record {
              line_after = refl;
              output_after = rw (x.output, last_char) (simp append_assoc refl);
              incoming_after = λ k. x.incoming (k + 1) ∙ ap sh.terminal.incoming (omega arith);
              fs_after = x.fs;
            },
          )

    -- Take an empty line and fewer than 64 characters to come, none of them a return, with a return after them. If the line,
    -- with what stood in the buffer behind it, begins with one of the shell's words, the loop uses the value of a
    -- comparison that has ended with no return; and if not, the loop makes its rounds without a fault: it writes the
    -- echo, the message that there is no such command and the prompt, the line is empty again, the
    -- bytes after the return are still to come, and the file system is as it was.
    pub shell_rounds-line :
        ((shell_rounds other (suc n) sh ≡ fault indeterminate)
          × StartsWithOne commands (line_of n sh))
        ⊎ ((¬ StartsWithOne commands (line_of n sh))
            × ((sh' : Shell D) × (shell_rounds other (suc n) sh ≡ ok sh') × Refused n sh sh'))
    shell_rounds-line =
        let (sh', typed, x) = shell_rounds-Typed n sh (omega arith) no_return in
        elim (dispatch-Answers (line_of n sh)) [
          | inl (run, one) ↦ inl (typed ∙ round-fault sh' x run, one)
          | inr (run, neither) ↦ inr (
            neither,
            let (sh'', round, refused) = round-Refused sh' x run in (sh'', typed ∙ round, refused),
          )
        ]
