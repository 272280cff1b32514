-- ===== src/NGram/Sorted.antt =====
-- Sorted data and sorted windows.
use petastorm.Prelude.{
  ℕ, zero, suc, ◌≤◌, ◌≡◌, refl, Bool, true, ◌&&◌, List, [], ◌∷◌, length, take, take_of_length-le,
  leb, arith,
}
use native.Mathlib.Decide.{dec_lt}
use petastorm.NGram.{Row, is_sorted}
use petastorm.NGram.Windows.{windows}

module _ {V : Type 0} (timestamp : Row V → ℕ) where
  unfoldable pub all_sorted : List (List (Row V)) → Bool
  all_sorted [] = true
  all_sorted (w ∷ ws) = is_sorted timestamp w && all_sorted ws

  -- The beginning of sorted rows is sorted.
  pub is_sorted-take :
      (n : ℕ) (rows : List (Row V))
      → is_sorted timestamp rows ≡ true
      → is_sorted timestamp (take n rows) ≡ true
  unfolding is_sorted
  is_sorted-take zero rows h = refl
  is_sorted-take (suc n) [] h = refl
  is_sorted-take (suc zero) (r ∷ rest) h = refl
  is_sorted-take (suc (suc n)) (r ∷ []) h = refl
  is_sorted-take (suc (suc n)) (r ∷ s ∷ rest) h =
      let tail : is_sorted timestamp (s ∷ rest) ≡ true = ground arith in
      let first : leb (timestamp r) (timestamp s) ≡ true = ground arith in
      rw (first, is_sorted-take (suc n) (s ∷ rest) tail)

  pub all_sorted-windows :
      (n : ℕ) (rows : List (Row V))
      → is_sorted timestamp rows ≡ true
      → all_sorted (windows n rows) ≡ true
  unfolding windows all_sorted is_sorted
  all_sorted-windows n [] h = refl
  all_sorted-windows n (r ∷ []) h = ground (arith, is_sorted-take n (r ∷ []) refl)
  all_sorted-windows n (r ∷ s ∷ rest) h =
      let tail : is_sorted timestamp (s ∷ rest) ≡ true = ground arith in
      ground (arith, is_sorted-take n (r ∷ s ∷ rest) h, all_sorted-windows n (s ∷ rest) tail)

  -- Where the windows have at least two rows and the data is long enough, they show every step
  -- back of the data.
  pub all_sorted-is_sorted :
      (n : ℕ) (rows : List (Row V))
      → suc (suc n) ≤ length rows
      → all_sorted (windows (suc (suc n)) rows) ≡ true
      → is_sorted timestamp rows ≡ true
  unfolding windows all_sorted is_sorted
  all_sorted-is_sorted n [] long h = absurd (omega arith)
  all_sorted-is_sorted n (r ∷ []) long h = absurd (omega arith)
  all_sorted-is_sorted n (r ∷ s ∷ rest) long h = elim (dec_lt (length rest) (suc n)) [
    | yes short ↦
        let whole : take n rest ≡ rest = take_of_length-le n rest (omega arith) in
        ground (arith, whole)
    | no more ↦
        let later : all_sorted (windows (suc (suc n)) (s ∷ rest)) ≡ true = ground arith in
        ground (arith, all_sorted-is_sorted n (s ∷ rest) (omega arith) later)
  ]
