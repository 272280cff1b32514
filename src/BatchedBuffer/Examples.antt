-- ===== src/BatchedBuffer/Examples.antt =====
-- The loop that doubles the capacity, from 3 to hold 10 rows.
use petastorm.Prelude.{ℕ, ◌*◌, ◌≤◌, ◌<◌, ◌≡◌, ◌⊎◌, ok, arith}
use petastorm.BatchedBuffer.Random.{grow}
use petastorm.BatchedBuffer.Random.Capacity.{grow_ends}

grow_ends_example : (c : ℕ) × (grow 11 3 10 ≡ ok c) × (10 ≤ c) × (3 ≤ c) × ((c ≡ 3) ⊎ (c < 10 * 2))
grow_ends_example = grow_ends 10 3 10 (omega arith) (omega arith)
