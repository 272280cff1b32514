-- ===== src/BatchedBuffer/Random/Capacity.antt =====
-- The loop that doubles the capacity.
use petastorm.Prelude.{
  true, false, ℕ, zero, suc, ◌+◌, ◌*◌, ◌≤◌, ◌<◌, ◌≡◌, refl, ◌⊎◌, inl, inr, ltb, ok, arith,
  Bool-cases,
}
use petastorm.BatchedBuffer.Random.{grow}

abbrev Grown : ℕ → ℕ → ℕ → Type 0
Grown fuel capacity expected_size =
    (c : ℕ) × (grow (suc fuel) capacity expected_size ≡ ok c)
    × (expected_size ≤ c)
    × (capacity ≤ c)
    × ((c ≡ capacity) ⊎ (c < expected_size * 2))

grow_once :
    (fuel capacity expected_size : ℕ)
    → ltb capacity expected_size ≡ true
    → Grown fuel (capacity * 2) expected_size
    → Grown (suc fuel) capacity expected_size
unfolding grow
grow_once fuel capacity expected_size more (c, runs, enough, bigger, bound) =
    (c, rw (more, runs), enough, omega (arith, bigger), inr (ground (arith, bound, more)))

-- From a positive capacity the loop ends, within as many rounds as rows are asked for: the capacity
-- suffices, it is never less than the one before, and either nothing was done or less than twice
-- the rows that are asked for are allocated.
pub grow_ends :
    (fuel capacity expected_size : ℕ)
    → 0 < capacity
    → expected_size ≤ capacity + fuel
    → (c : ℕ) × (grow (suc fuel) capacity expected_size ≡ ok c)
      × (expected_size ≤ c)
      × (capacity ≤ c)
      × ((c ≡ capacity) ⊎ (c < expected_size * 2))
unfolding grow
grow_ends zero capacity expected_size pos fits =
    let enough : ltb capacity expected_size ≡ false = ground arith in
    (capacity, rw enough refl, omega arith, omega arith, inl refl)
grow_ends (suc fuel) capacity expected_size pos fits =
    elim (Bool-cases (ltb capacity expected_size)) [
      | inr enough ↦ (capacity, rw enough refl, ground arith, omega arith, inl refl)
      | inl more ↦
          grow_once fuel capacity expected_size more
            (grow_ends fuel (capacity * 2) expected_size (omega arith) (omega arith))
    ]
