-- ===== src/Indexing.antt =====
-- Python's item and slice assignment on a list, as the program uses them, and their laws.
use petastorm.Prelude.{
  ℕ, zero, suc, ◌<◌, ◌≡◌, refl, ap, Option, none, some, List, [], ◌∷◌, ◌++◌, arith, length,
  get_elem?, set, take, drop, Result, ok, raise, index_error,
}

module _ {ℓ} {A : Type ℓ} where
  or_index_error : Option A → Result A
  or_index_error none = raise index_error
  or_index_error (some a) = ok a

  -- `xs[i]`
  unfoldable pub get_item : List A → ℕ → Result A
  unfolding or_index_error
  get_item xs i = or_index_error (get_elem? xs i)

  set_slot : Option A → List A → Result (List A)
  set_slot none ys = raise index_error
  set_slot (some _) ys = ok ys

  -- `xs[i] = v`
  unfoldable pub set_item : List A → ℕ → A → Result (List A)
  unfolding set_slot
  set_item xs i v = set_slot (get_elem? xs i) (set xs i v)

  -- `xs[low:high] = new`, for `low ≤ high`
  unfoldable pub set_slice : List A → ℕ → ℕ → List A → List A
  set_slice xs low high new = take low xs ++ (new ++ drop high xs)

module _ {ℓ} {A : Type ℓ} where
  -- A list splits at each of its positions.
  pub split_at :
      (xs : List A) (i : ℕ)
      → i < length xs
      → (us : List A) × (x : A) × (vs : List A) × (xs ≡ us ++ x ∷ vs) × (length us ≡ i)
  split_at [] i h = absurd (omega arith)
  split_at (x ∷ xs) zero h = ([], x, xs, refl, refl)
  split_at (x ∷ xs) (suc i) h =
      let (us, y, vs, e, n) = split_at xs i (omega arith) in (x ∷ us, y, vs, ap (◌∷◌ x) e, ap suc n)

  -- A list that is not empty has a last item.
  pub split_last : (xs : List A) → 0 < length xs → (us : List A) × (z : A) × (xs ≡ us ++ z ∷ [])
  split_last [] h = absurd (omega arith)
  split_last (x ∷ []) h = ([], x, refl)
  split_last (x ∷ y ∷ xs) h =
      let (us, z, e) = split_last (y ∷ xs) (omega arith) in (x ∷ us, z, ap (◌∷◌ x) e)

  pub get_item_middle :
      (us : List A) (x : A) (vs : List A) (i : ℕ) → length us ≡ i → get_item (us ++ x ∷ vs) i ≡ ok x
  unfolding get_item
  get_item_middle [] x vs zero e = refl
  get_item_middle [] x vs (suc i) e = absurd (omega arith)
  get_item_middle (a ∷ us) x vs zero e = absurd (omega arith)
  get_item_middle (a ∷ us) x vs (suc i) e = get_item_middle us x vs i (omega arith)

  set_middle :
      (us : List A) (x y : A) (vs : List A) (i : ℕ)
      → length us ≡ i
      → set (us ++ x ∷ vs) i y ≡ us ++ y ∷ vs
  set_middle [] x y vs zero e = refl
  set_middle [] x y vs (suc i) e = absurd (omega arith)
  set_middle (a ∷ us) x y vs zero e = absurd (omega arith)
  set_middle (a ∷ us) x y vs (suc i) e = ap (◌∷◌ a) (set_middle us x y vs i (omega arith))

  get_middle :
      (us : List A) (x : A) (vs : List A) (i : ℕ)
      → length us ≡ i
      → get_elem? (us ++ x ∷ vs) i ≡ some x
  get_middle [] x vs zero e = refl
  get_middle [] x vs (suc i) e = absurd (omega arith)
  get_middle (a ∷ us) x vs zero e = absurd (omega arith)
  get_middle (a ∷ us) x vs (suc i) e = get_middle us x vs i (omega arith)

  pub set_item_middle :
      (us : List A) (x y : A) (vs : List A) (i : ℕ)
      → length us ≡ i
      → set_item (us ++ x ∷ vs) i y ≡ ok (us ++ y ∷ vs)
  unfolding set_item
  set_item_middle us x y vs i e = rw (get_middle us x vs i e, set_middle us x y vs i e)

  -- An index in range finds an item, which ends the prefix that is one longer.
  pub get_item_in_range :
      (xs : List A) (i : ℕ)
      → i < length xs
      → (x : A) × (get_item xs i ≡ ok x) × (take (suc i) xs ≡ take i xs ++ x ∷ [])
  unfolding get_item
  get_item_in_range [] i h = absurd (omega arith)
  get_item_in_range (x ∷ xs) zero h = (x, refl, refl)
  get_item_in_range (x ∷ xs) (suc i) h =
      let (y, found, e) = get_item_in_range xs i (omega arith) in (y, found, ap (◌∷◌ x) e)
