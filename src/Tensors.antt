-- ===== src/Tensors.antt =====
-- What the batched loaders use of torch's tensors: a tensor is the list of its rows. Only the first
-- dimension is modelled; types and devices are left out.
pub mod Rows
pub mod Randperm
pub mod Permuted
pub mod Samples
use petastorm.Prelude.{
  ℕ, zero, suc, ◌+◌, ◌-◌, min, List, [], ◌∷◌, ◌++◌, length, take, drop, replicate, ◌==◌,
  if◌then◌else◌, Result, ok, raise, runtime_error, index_error, ◌>>=◌,
}
use petastorm.Indexing.{get_item, set_slice}

module _ {A : Type 0} where
  -- `t[low:high]`
  unfoldable pub slice : ℕ → ℕ → List A → List A
  slice low high t = take (high - low) (drop low t)

  -- `t[indices]`, for a list of indices
  unfoldable pub gather : List A → List ℕ → Result (List A)
  gather t [] = ok []
  gather t (i ∷ is) = do x ← get_item t i; xs ← gather t is; ok (x ∷ xs)

  -- The value of an assignment to `n` rows: as many rows, or a single one that is repeated.
  unfoldable pub broadcast : ℕ → List A → Result (List A)
  broadcast n (x ∷ []) = ok (replicate n x)
  broadcast n v = if length v == n then ok v else raise runtime_error

  -- `t[low:high] = v`
  unfoldable pub assign : ℕ → ℕ → List A → List A → Result (List A)
  unfolding broadcast
  assign low high t v = do w ← broadcast (min high (length t) - low) v; ok (set_slice t low high w)

-- The tensors of all columns in turn.
unfoldable pub each : {A B : Type 0} → (A → Result B) → List A → Result (List B)
each f [] = ok []
each f (t ∷ ts) = do u ← f t; us ← each f ts; ok (u ∷ us)

-- `for k, v in enumerate(items): ts[k] = f(ts[k], v)`
unfoldable pub each_item : {A B : Type 0} → (A → B → Result A) → List A → List B → Result (List A)
each_item f ts [] = ok ts
each_item f [] (v ∷ vs) = raise index_error
each_item f (t ∷ ts) (v ∷ vs) = do u ← f t v; us ← each_item f ts vs; ok (u ∷ us)
