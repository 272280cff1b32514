-- ===== src/ShufflingBuffer/Source.antt =====
-- `np.random.randint(low, high)`: numpy is not part of the program. What is used of it is its
-- documented contract: an integer of [low, high), and a ValueError where that range is empty.
use petastorm.Prelude.{ℕ, ◌≤◌, ◌<◌, ◌≡◌, Result, ok, raise, value_error}

pub record Randint : Type 0 where
  pub draw : ℕ → ℕ → Result ℕ
  pub draw_in_range :
      (low high : ℕ) → low < high → (r : ℕ) × (draw low high ≡ ok r) × (low ≤ r) × (r < high)
  pub draw_empty : (low high : ℕ) → high ≤ low → draw low high ≡ raise value_error
