-- ===== src/ShufflingBuffer/Samples.antt =====
-- A source of numbers for tests, which meets numpy's contract.
use petastorm.Prelude.{ℕ, ◌≤◌, ◌<◌, ◌≡◌, Result, ok, raise, value_error, ltb, if◌then◌else◌, arith}
use petastorm.ShufflingBuffer.Source.{Randint}

unfoldable pub draw_low : ℕ → ℕ → Result ℕ
draw_low low high = if ltb low high then ok low else raise value_error

pub draw_low_in_range :
    (low high : ℕ) → low < high → (r : ℕ) × (draw_low low high ≡ ok r) × (low ≤ r) × (r < high)
unfolding draw_low
draw_low_in_range low high h = (low, ground arith, omega arith, h)

pub draw_low_empty : (low high : ℕ) → high ≤ low → draw_low low high ≡ raise value_error
unfolding draw_low
draw_low_empty low high h = ground arith

-- A source that always gives the lowest number.
abbrev pub lowest : Randint
lowest = record { draw = draw_low; draw_in_range = draw_low_in_range; draw_empty = draw_low_empty }
