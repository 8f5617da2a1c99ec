-- ===== src/Leds/Clock.antt =====
-- The clock that wraps around does not disturb the blinking.
use native.Mathlib.Decide.{ℕ_discrete}
use bit_computer.Common.{
  ==_ne, Bool, List, [], ap, append-nil, append_assoc, arith, dec_lt, false, if◌then◌else◌, le→ltb,
  ltb, lt→ltb, refl, sym, true, ℕ, ◌%◌, ◌++◌, ◌+◌, ◌-◌, ◌<◌, ◌==◌, ◌^◌, ◌∙◌, ◌∷◌, ◌≡◌, ◌≢◌, ◌≤◌,
}
use bit_computer.Leds.{Blinker, blink, blink_all, delay, new_blinker, toggle}

-- What `millis` answers: the low 16 bits of the time.
unfoldable pub millis : List ℕ → List ℕ
millis [] = []
millis (t ∷ ts) = t % 2 ^ 16 ∷ millis ts

-- Blinking by a clock that never wraps, since time `last`.
unfoldable pub blinks : List ℕ → ℕ → ℕ → List Bool
blinks [] last on = []
blinks (t ∷ ts) last on =
    let stay = blinks ts last on in
    let start = true ∷ blinks ts t 1 in
    let stop = false ∷ blinks ts t 0 in
    if ltb 25 (t - last) then (if on == 0 then start else stop) else stay

-- The times go up, and no round comes a whole turn of the clock, less 26 ms, after the one before it.
abbrev IsSteady : ℕ → List ℕ → Type 0
IsSteady from [] = Unit
IsSteady from (t ∷ ts) = (from ≤ t) × (t < from + 2 ^ 16 - 26) × IsSteady t ts

elapsed :
    (last t : ℕ)
    → last ≤ t
    → t < last + 2 ^ 16
    → (t % 2 ^ 16 + 2 ^ 16 - last % 2 ^ 16) % 2 ^ 16 ≡ t - last
elapsed last t h h' = omega arith

-- A round: the LED is switched by the time that has really passed.
abbrev timed : ℕ → ℕ → ℕ → List Bool → Blinker
timed now last on calls = record {
  current = now;
  lastcalled = last % 2 ^ 16;
  on = on;
  calls = calls;
}

module _ (t now last on : ℕ) (calls : List Bool) (h : last ≤ t) (h' : t < last + 2 ^ 16) where
  blink-on :
      25 < t - last
      → on ≡ 0
      → blink (t % 2 ^ 16) (timed now last on calls) ≡ timed (t % 2 ^ 16) t 1 (calls ++ (true ∷ []))
  unfolding blink delay toggle
  blink-on late off = rw (elapsed last t h h', lt→ltb 25 (t - last) late, off, blink) refl

  blink-off :
      25 < t - last
      → on ≢ 0
      → blink (t % 2 ^ 16) (timed now last on calls)
        ≡ timed (t % 2 ^ 16) t 0 (calls ++ (false ∷ []))
  unfolding blink delay toggle
  blink-off late lit =
      rw (elapsed last t h h', lt→ltb 25 (t - last) late, ==_ne on 0 lit, blink) refl

  blink-stay :
      t - last ≤ 25
      → blink (t % 2 ^ 16) (timed now last on calls) ≡ timed (t % 2 ^ 16) last on calls
  unfolding blink delay
  blink-stay early = rw (elapsed last t h h', le→ltb 25 (t - last) early, blink) refl

-- The same round by the clock that never wraps.
module _ (t last on : ℕ) (ts : List ℕ) where
  blinks-on : 25 < t - last → on ≡ 0 → blinks (t ∷ ts) last on ≡ true ∷ blinks ts t 1
  unfolding blinks
  blinks-on late off = rw (lt→ltb 25 (t - last) late, off, blinks) refl

  blinks-off : 25 < t - last → on ≢ 0 → blinks (t ∷ ts) last on ≡ false ∷ blinks ts t 0
  unfolding blinks
  blinks-off late lit = rw (lt→ltb 25 (t - last) late, ==_ne on 0 lit, blinks) refl

  blinks-stay : t - last ≤ 25 → blinks (t ∷ ts) last on ≡ blinks ts last on
  unfolding blinks
  blinks-stay early = rw (le→ltb 25 (t - last) early, blinks) refl

blink_all-from :
    (ts : List ℕ) (now last from on : ℕ) (calls : List Bool)
    → last ≤ from
    → from ≤ last + 25
    → IsSteady from ts
    → (blink_all (millis ts) (timed now last on calls)).calls ≡ calls ++ blinks ts last on
unfolding blink_all millis blinks
blink_all-from [] now last from on calls h h' steady = sym (append-nil calls)
blink_all-from (t ∷ ts) now last from on calls h h' (up, short, steady) =
    let rest = λ (b : Blinker). (blink_all (millis ts) b).calls in
    elim (dec_lt 25 (t - last)) [
      | no early ↦
          ap rest (blink-stay t now last on calls (omega arith) (omega arith) (omega arith))
          ∙ blink_all-from ts (t % 2 ^ 16) last t on calls (omega arith) (omega arith) steady
          ∙ ap (λ l. calls ++ l) (sym (blinks-stay t last on ts (omega arith)))
      | yes late ↦ elim (ℕ_discrete on 0) [
        | yes off ↦
            ap rest (blink-on t now last on calls (omega arith) (omega arith) late off)
            ∙ blink_all-from ts (t % 2 ^ 16) t t 1 (calls ++ (true ∷ [])) (omega arith)
                (omega arith) steady
            ∙ append_assoc calls (true ∷ []) (blinks ts t 1)
            ∙ ap (λ l. calls ++ l) (sym (blinks-on t last on ts late off))
        | no lit ↦
            ap rest (blink-off t now last on calls (omega arith) (omega arith) late lit)
            ∙ blink_all-from ts (t % 2 ^ 16) t t 0 (calls ++ (false ∷ [])) (omega arith)
                (omega arith) steady
            ∙ append_assoc calls (false ∷ []) (blinks ts t 0)
            ∙ ap (λ l. calls ++ l) (sym (blinks-off t last on ts late lit))
      ]
    ]

-- If no round comes a whole turn of the 16-bit clock, less 26 ms, after the one before it, the LEDs are
-- switched just as by a clock that never wraps around.
pub blink_all-blinks :
    (ts : List ℕ) → IsSteady 0 ts → (blink_all (millis ts) new_blinker).calls ≡ blinks ts 0 0
unfolding new_blinker
blink_all-blinks ts steady = blink_all-from ts 0 0 0 0 [] (omega arith) (omega arith) steady
