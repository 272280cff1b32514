-- ===== src/ShufflingBuffer/Random/Errors.antt =====
-- When the methods of `RandomShufflingBuffer` raise.
use petastorm.Prelude.{
  ◌+◌, ◌≤◌, ◌<◌, ◌≡◌, true, false, ◌||◌, ◌⊎◌, ◌≢◌, ◌↔◌, List, arith, length, leb, if◌then◌else◌,
  raise, runtime_error, value_error,
}
use petastorm.ShufflingBuffer.Source.{Randint}
use petastorm.ShufflingBuffer.Random.{
  RandomShufflingBuffer, can_add, can_retrieve, finish, add_many, retrieve,
}

module _ {ℓ} {A : Type ℓ} (b : RandomShufflingBuffer A) where
  -- The rows are refused, always by a RuntimeError, exactly when the buffer was finished, is at its
  -- capacity, or would pass the hard limit of its capacity and the extra capacity.
  pub add_many-raises_iff :
      (new : List A)
      → (add_many b new ≡ raise runtime_error) ↔ (
          (b.done_adding ≡ true)
          ⊎ (b.shuffling_queue_capacity ≤ b.size)
          ⊎ (b.shuffling_queue_capacity + b.extra_capacity < b.size + length new))
  unfolding add_many
  add_many-raises_iff new = (λ h. ground arith, λ h. ground arith)

  -- `can_add` promises that one more row is accepted.
  pub can_add-row :
      (row : List A) → length row ≤ 1 → can_add b ≡ true → add_many b row ≢ raise runtime_error
  unfolding add_many
  can_add-row row h k = ground arith

  -- An empty buffer never gives a row: the guard raises a RuntimeError, unless the buffer was
  -- finished or its minimum is 0, when numpy raises a ValueError for the empty range.
  pub retrieve_empty :
      (rng : Randint)
      → b.size ≡ 0
      → retrieve rng b
        ≡ raise (if b.done_adding || leb b.min_after_dequeue 0 then value_error else runtime_error)
  unfolding retrieve
  retrieve_empty rng e = ground (arith, rng.draw_empty 0 b.size)

  -- Where `can_retrieve` says no, a buffer that is not empty raises a RuntimeError.
  pub retrieve_blocked :
      (rng : Randint) → can_retrieve b ≡ false → 0 < b.size → retrieve rng b ≡ raise runtime_error
  unfolding retrieve
  retrieve_blocked rng h k = ground arith

  -- With a positive minimum a buffer that can be read is not empty.
  pub can_retrieve-pos : 0 < b.min_after_dequeue → can_retrieve b ≡ true → 0 < b.size
  unfolding can_retrieve
  can_retrieve-pos h k = ground arith

  -- A finished buffer can be read as long as it is not empty.
  pub can_retrieve-finish : 0 < b.size → can_retrieve (finish b) ≡ true
  unfolding can_retrieve finish
  can_retrieve-finish h = ground arith
