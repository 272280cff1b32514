-- ===== src/Tensors/Permuted.antt =====
-- Gathering the rows of a tensor at all its indices, in some order.
use mathlib.Core.List.{Perm}
use mathlib.Core.List.Perm
use petastorm.Prelude.{
  ℕ, zero, suc, ◌+◌, ◌≤◌, ◌<◌, ◌≡◌, refl, ap, ◌∙◌, List, [], ◌∷◌, map, length, length-map, ok,
  arith,
}
use petastorm.Indexing.{get_item}
use petastorm.Tensors.{gather}
use petastorm.Tensors.Randperm.{AllBelow, Randperm}
use petastorm.NGram.{range_from}
use petastorm.Tensors.Rows.{gather_nothing, gather_cons, gather-AllBelow}

pub length-range_from : (i n : ℕ) → length (range_from i n) ≡ n
unfolding range_from
length-range_from i zero = refl
length-range_from i (suc n) = ap suc (length-range_from (i + 1) n)

pub AllBelow-range : (k n m : ℕ) → k + n ≤ m → AllBelow m (range_from k n)
unfolding range_from
AllBelow-range k zero m e = tt
AllBelow-range k (suc n) m e = (omega arith, AllBelow-range (k + 1) n m (omega arith))

module _ {A : Type 0} where
  -- The row at an index, or `d`.
  abbrev get_or : List A → ℕ → A → A
  get_or [] i d = d
  get_or (x ∷ xs) zero d = x
  get_or (x ∷ xs) (suc i) d = get_or xs i d

  get_item-get_or :
      (xs : List A) (d : A) (i : ℕ) → i < length xs → get_item xs i ≡ ok (get_or xs i d)
  unfolding get_item
  get_item-get_or [] d i less = absurd (omega arith)
  get_item-get_or (x ∷ xs) d zero less = refl
  get_item-get_or (x ∷ xs) d (suc i) less = get_item-get_or xs d i (omega arith)

  gather-get_or :
      (xs : List A) (d : A) (is : List ℕ)
      → AllBelow (length xs) is
      → gather xs is ≡ ok (map (λ i. get_or xs i d) is)
  unfolding gather
  gather-get_or xs d [] below = refl
  gather-get_or xs d (i ∷ is) below =
      gather_cons xs i is _ _ (get_item-get_or xs d i below.0) (gather-get_or xs d is below.1)

  range_shift :
      (f : ℕ → A) (k m : ℕ) → map f (range_from (k + 1) m) ≡ map (λ i. f (suc i)) (range_from k m)
  unfolding range_from
  range_shift f k zero = refl
  range_shift f k (suc m) =
      let next : k + 1 ≡ suc k = omega arith in rw (range_shift f (k + 1) m, next)

  all_get_or : (xs : List A) (d : A) → map (λ i. get_or xs i d) (range_from 0 (length xs)) ≡ xs
  unfolding range_from
  all_get_or [] d = refl
  all_get_or (x ∷ xs) d =
      ap (◌∷◌ x) (range_shift (λ i. get_or (x ∷ xs) i d) 0 (length xs) ∙ all_get_or xs d)

  pub no_rows : (ys : List A) → length ys ≡ 0 → ys ≡ []
  no_rows [] e = refl
  no_rows (y ∷ ys) e = absurd (omega arith)

  permuted :
      (xs : List A) (is : List ℕ)
      → AllBelow (length xs) is
      → Perm is (range_from 0 (length xs))
      → length is ≡ length xs
      → (ys : List A) × (gather xs is ≡ ok ys) × Perm ys xs × (length ys ≡ length xs)
  permuted [] is below p n =
      let (ys, found, m) = gather-AllBelow [] is below in
      (ys, found, rw (no_rows ys (m ∙ n)) (Perm.refl []), m ∙ n)
  permuted (x ∷ xs) is below p n = (
    map (λ i. get_or (x ∷ xs) i x) is,
    gather-get_or (x ∷ xs) x is below,
    rw (all_get_or (x ∷ xs) x) at (Perm.map (λ i. get_or (x ∷ xs) i x) p),
    length-map (λ i. get_or (x ∷ xs) i x) is ∙ n,
  )

  -- All rows in a random order.
  pub gather-Perm :
      (xs : List A) (rng : Randperm)
      → (ys : List A) × (gather xs (rng.randperm (length xs)) ≡ ok ys)
        × Perm ys xs
        × (length ys ≡ length xs)
  gather-Perm xs rng =
      permuted xs (rng.randperm (length xs)) (rng.in_range (length xs)) (rng.permutes (length xs))
        (rng.counted (length xs))

  -- All rows in their order.
  pub gather_range : (xs : List A) → gather xs (range_from 0 (length xs)) ≡ ok xs
  unfolding range_from
  gather_range [] = gather_nothing []
  gather_range (x ∷ xs) =
      gather-get_or (x ∷ xs) x _
        (AllBelow-range 0 (length (x ∷ xs)) (length (x ∷ xs)) (omega arith))
      ∙ ap ok (all_get_or (x ∷ xs) x)
