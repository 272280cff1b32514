-- ===== src/Tensors/Randperm.antt =====
-- `torch.randperm(n)`: torch is not part of the program. What is used of it is its documented
-- contract: the integers below `n`, in some order.
use mathlib.Core.List.{Perm}
use petastorm.Prelude.{ℕ, ◌<◌, ◌≡◌, List, [], ◌∷◌, length}
use petastorm.NGram.{range_from}

abbrev pub AllBelow : ℕ → List ℕ → Type 0
AllBelow n [] = Unit
AllBelow n (i ∷ is) = (i < n) × AllBelow n is

pub record Randperm : Type 0 where
  pub randperm : ℕ → List ℕ
  pub permutes : (n : ℕ) → Perm (randperm n) (range_from 0 n)
  pub in_range : (n : ℕ) → AllBelow n (randperm n)
  pub counted : (n : ℕ) → length (randperm n) ≡ n
