-- ===== src/BatchedBuffer/Columns.antt =====
-- Rows as columns: `projs` are the fields, and a column is the list of a field's values.
use petastorm.Prelude.{
  replicate, ℕ, zero, suc, ◌≡◌, refl, ap, Option, none, some, List, [], ◌∷◌, map, length,
  length-map, Result, ok, ◌>>=◌,
}
use petastorm.Indexing.{get_item}
use petastorm.Tensors.{each, each_item}

module _ {A : Type 0} where
  -- `len(items[0])`
  unfoldable pub first_length : List (List A) → Result ℕ
  first_length items = do t ← get_item items 0; ok (length t)

module _ {R A : Type 0} where
  unfoldable pub columns : List (R → A) → List R → List (List A)
  columns projs rows = map (λ p. map p rows) projs

  pub first_length-columns :
      (p : R → A) (projs : List (R → A)) (rows : List R)
      → first_length (columns (p ∷ projs) rows) ≡ ok (length rows)
  unfolding first_length columns get_item
  first_length-columns p projs rows = ap ok (length-map p rows)

  -- What is done to every tensor alike is done to the rows.
  pub each-columns :
      (f : List A → Result (List A)) (projs : List (R → A)) (xs ys : List R)
      → ((p : R → A) → f (map p xs) ≡ ok (map p ys))
      → each f (columns projs xs) ≡ ok (columns projs ys)
  unfolding columns each
  each-columns f [] xs ys h = refl
  each-columns f (p ∷ projs) xs ys h = rw (h p, each-columns f projs xs ys h)

  pub each_item-columns :
      (f : List A → List A → Result (List A)) (projs : List (R → A)) (xs vs ys : List R)
      → ((p : R → A) → f (map p xs) (map p vs) ≡ ok (map p ys))
      → each_item f (columns projs xs) (columns projs vs) ≡ ok (columns projs ys)
  unfolding columns each_item
  each_item-columns f [] xs vs ys h = refl
  each_item-columns f (p ∷ projs) xs vs ys h = rw (h p, each_item-columns f projs xs vs ys h)

  pub map-columns :
      (f : List A → List A) (projs : List (R → A)) (xs ys : List R)
      → ((p : R → A) → f (map p xs) ≡ map p ys)
      → map f (columns projs xs) ≡ columns projs ys
  unfolding columns
  map-columns f [] xs ys h = refl
  map-columns f (p ∷ projs) xs ys h = rw (h p, map-columns f projs xs ys h)

module _ {R A : Type 0} where
  -- A slot of a preallocated tensor: a row, or what the memory happens to hold.
  abbrev pub read : A → (R → A) → Option R → A
  read blank p none = blank
  read blank p (some r) = p r

  abbrev pub cell_columns : A → List (R → A) → List (Option R) → List (List A)
  cell_columns blank projs cells = columns (map (read blank) projs) cells

  read-some :
      (blank : A) (p : R → A) (rows : List R) → map (read blank p) (map some rows) ≡ map p rows
  read-some blank p [] = refl
  read-some blank p (r ∷ rows) = ap (◌∷◌ (p r)) (read-some blank p rows)

  pub columns-some :
      (blank : A) (projs : List (R → A)) (rows : List R)
      → cell_columns blank projs (map some rows) ≡ columns projs rows
  unfolding columns
  columns-some blank [] rows = refl
  columns-some blank (p ∷ projs) rows = rw (read-some blank p rows, columns-some blank projs rows)

  replicate-read :
      (blank : A) (p : R → A) (n : ℕ) → replicate n blank ≡ map (read blank p) (replicate n none)
  replicate-read blank p zero = refl
  replicate-read blank p (suc n) = ap (◌∷◌ blank) (replicate-read blank p n)

  -- New tensors have free slots only.
  pub fresh_cells :
      (blank : A) (c : ℕ) (qs : List (R → A)) (new : List R)
      → map (λ v. replicate c blank) (columns qs new) ≡ cell_columns blank qs (replicate c none)
  unfolding columns
  fresh_cells blank c [] new = refl
  fresh_cells blank c (q ∷ qs) new = rw (fresh_cells blank c qs new, ← replicate-read blank q c)
