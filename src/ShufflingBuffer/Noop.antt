-- ===== src/ShufflingBuffer/Noop.antt =====
-- `NoopShufflingBuffer`: a first-in first-out queue.
use petastorm.Prelude.{
  ℕ, Bool, true, List, [], ◌∷◌, ◌++◌, length, ltb, Result, ok, raise, index_error,
}

pub record NoopShufflingBuffer {ℓ} (A : Type ℓ) : Type ℓ where
  pub store : List A

module _ {ℓ} {A : Type ℓ} where
  unfoldable pub init : NoopShufflingBuffer A
  init = record { store = [] }

  unfoldable pub add_many : NoopShufflingBuffer A → List A → NoopShufflingBuffer A
  add_many b items = record { store = b.store ++ items }

  -- `deque.popleft` raises an IndexError on an empty deque
  popleft : List A → Result (A × NoopShufflingBuffer A)
  popleft [] = raise index_error
  popleft (x ∷ xs) = ok (x, record { store = xs })

  unfoldable pub retrieve : NoopShufflingBuffer A → Result (A × NoopShufflingBuffer A)
  unfolding popleft
  retrieve b = popleft b.store

  unfoldable pub can_retrieve : NoopShufflingBuffer A → Bool
  can_retrieve b = ltb 0 (length b.store)

  unfoldable pub can_add : NoopShufflingBuffer A → Bool
  can_add b = true

  unfoldable pub size : NoopShufflingBuffer A → ℕ
  size b = length b.store

  unfoldable pub finish : NoopShufflingBuffer A → NoopShufflingBuffer A
  finish b = b
