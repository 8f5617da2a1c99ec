-- ===== src/Leds.antt =====
-- leds_in_c/main.c: the program that blinks the LEDs, and its clock of 16 bits.
pub mod Clock
pub mod Spin
pub mod Counter
mod Witnesses
use bit_computer.Common.{
  Bool, List, [], false, if◌then◌else◌, ltb, true, ℕ, ◌%◌, ◌++◌, ◌+◌, ◌-◌, ◌==◌, ◌^◌, ◌∷◌,
}

-- The variables, and what has been called: true for `ledOn`, false for `ledOff`.
pub record Blinker : Type 0 where
  pub current : ℕ
  pub lastcalled : ℕ
  pub on : ℕ
  pub calls : List Bool

-- The rest of `delay` when `millis` has answered `now`: 0 if more than 25 ms have passed. The difference has 16
-- bits.
unfoldable pub delay : ℕ → Blinker → ℕ × Blinker
delay now b =
    if ltb 25 ((now + 2 ^ 16 - b.lastcalled) % 2 ^ 16)
    then (0, record b { current = now; lastcalled = now })
    else (1, record b { current = now })

unfoldable pub toggle : Blinker → Blinker
toggle b =
    if b.on == 0
    then record b { on = 1; calls = b.calls ++ (true ∷ []) }
    else record b { on = 0; calls = b.calls ++ (false ∷ []) }

-- A round of the loop in `main`.
unfoldable pub blink : ℕ → Blinker → Blinker
unfolding delay toggle
blink now b = let (r, b') = delay now b in if r == 0 then toggle b' else b'

-- The rounds in which `millis` answers so.
unfoldable pub blink_all : List ℕ → Blinker → Blinker
blink_all [] b = b
blink_all (now ∷ later) b = blink_all later (blink now b)

unfoldable pub new_blinker : Blinker
new_blinker = record { current = 0; lastcalled = 0; on = 0; calls = [] }
