-- ===== src/Leds/Witnesses.antt =====
-- The theorems on the LEDs at concrete times.
use Prim.{tt}
use bit_computer.Common.{[], arith, refl, ◌∷◌, ◌≡◌}
use bit_computer.Leds.{blink_all, new_blinker}
use bit_computer.Leds.Clock.{blink_all-blinks, blinks, millis}
use bit_computer.Leds.Spin.{pow, pow_loop, spin, spin-rounds, sweep}

blink_all-blinks_example :
    (blink_all (millis (30 ∷ 65_000 ∷ 66_000 ∷ [])) new_blinker).calls
    ≡ blinks (30 ∷ 65_000 ∷ 66_000 ∷ []) 0 0
blink_all-blinks_example =
    blink_all-blinks (30 ∷ 65_000 ∷ 66_000 ∷ [])
      (omega arith, omega arith, (omega arith, omega arith, (omega arith, omega arith, tt)))

spin-rounds_example : spin 255 ≡ record { i = 255; j = 255; rounds = 510 }
spin-rounds_example = spin-rounds 255

-- Each LED once.
sweep_all : sweep 8 0 ≡ 1 ∷ 2 ∷ 4 ∷ 8 ∷ 16 ∷ 32 ∷ 64 ∷ 128 ∷ []
unfolding sweep pow pow_loop
sweep_all = refl
