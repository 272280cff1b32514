-- ===== src/WeightedSampling/Streams.antt =====
-- What one step of the iteration takes from the readers.
use petastorm.Prelude.{
  ℕ, zero, suc, ◌≡◌, refl, ap, Bool, false, Option, some, List, [], ◌∷◌, ◌++◌, length, ◌==◌,
  if◌then◌else◌, Result, Result-cases, Bool-cases, ok, raise, Error, arith, inl, inr,
}
use petastorm.Indexing.{get_item, set_item, set_item_middle}
use petastorm.WeightedSampling.{
  Reader, WeightedSamplingReader, take_row, next_row, reader_index, next, run,
}

module _ {T : Type 0} where
  -- The rows that the reader of an index still yields.
  abbrev pub rows_of : List (Reader T) → ℕ → List T
  rows_of [] j = []
  rows_of (r ∷ rs) zero = r.rows
  rows_of (r ∷ rs) (suc j) = rows_of rs j

  -- The rows of the reader of an index among those that came out.
  abbrev pub taken_from : ℕ → List (ℕ × T) → List T
  taken_from j [] = []
  taken_from j ((i, row) ∷ out) = if i == j then row ∷ taken_from j out else taken_from j out

  pub taken_more :
      (j i : ℕ) (x : T) (out : List (ℕ × T)) (rest : List T)
      → taken_from j ((i, x) ∷ []) ++ (taken_from j out ++ rest)
        ≡ taken_from j ((i, x) ∷ out) ++ rest
  taken_more j i x out rest = elim (Bool-cases (i == j)) [ inl e ↦ rw e refl | inr e ↦ rw e refl ]

  rows_after : Result (T × Reader T) → List T
  rows_after (raise e) = []
  rows_after (ok (x, r)) = r.rows

  pub found_split :
      (readers : List (Reader T)) (i : ℕ) (r : Reader T)
      → get_item readers i ≡ ok r
      → (us vs : List (Reader T)) × (readers ≡ us ++ r ∷ vs) × (length us ≡ i)
  unfolding get_item
  found_split [] i r e = absurd (ground (arith, e))
  found_split (a ∷ readers) zero r e =
      let same : a ≡ r = ground (arith, e) in ([], readers, ap (λ b. b ∷ readers) same, refl)
  found_split (a ∷ readers) (suc i) r e =
      let (us, vs, whole, n) = found_split readers i r e in (a ∷ us, vs, ap (◌∷◌ a) whole, ap suc n)

  -- One row is taken from the reader behind `us`, and the others stay as they are.
  one_taken :
      (us vs : List (Reader T)) (r r' : Reader T) (x : T) (i j : ℕ)
      → r.rows ≡ x ∷ r'.rows
      → length us ≡ i
      → rows_of (us ++ r ∷ vs) j ≡ taken_from j ((i, x) ∷ []) ++ rows_of (us ++ r' ∷ vs) j
  one_taken [] vs r r' x zero zero e n = e
  one_taken [] vs r r' x zero (suc j) e n =
      let other : (0 == suc j) ≡ false = ground arith in rw other refl
  one_taken [] vs r r' x (suc i) j e n = absurd (omega (arith, n))
  one_taken (u ∷ us) vs r r' x zero j e n = absurd (omega (arith, n))
  one_taken (u ∷ us) vs r r' x (suc i) zero e n =
      let other : (suc i == 0) ≡ false = ground arith in rw other refl
  one_taken (u ∷ us) vs r r' x (suc i) (suc j) e n =
      let same : (suc i == suc j) ≡ (i == j) = ground arith in
      rw same (one_taken us vs r r' x i j e (omega (arith, n)))

  take_row-cons :
      (r r' : Reader T) (x : T) (xs : List T) → take_row r xs ≡ ok (x, r') → xs ≡ x ∷ r'.rows
  unfolding take_row rows_after
  take_row-cons r r' x [] e = absurd (ground (arith, e))
  take_row-cons r r' x (y ∷ xs) e =
      let head : y ≡ x = ground (arith, e) in
      let rest : xs ≡ r'.rows = ap (λ q. rows_after q) e in rw (head, rest) refl

  pub next_row-cons : (r r' : Reader T) (x : T) → next_row r ≡ ok (x, r') → r.rows ≡ x ∷ r'.rows
  unfolding next_row
  next_row-cons r r' x e = take_row-cons r r' x r.rows e

module _ {T P D : Type 0} (below : D → P → Bool) where
  pub next-one :
      (r : D) (s s' : WeightedSamplingReader T P) (i j : ℕ) (x : T)
      → next below r s ≡ ok (i, x, s')
      → rows_of s.readers j ≡ taken_from j ((i, x) ∷ []) ++ rows_of s'.readers j
  unfolding next
  next-one r s s' i j x e = elim (Result-cases (reader_index below r s.cum_prob)) [
    | inr (er, failed) ↦ absurd (ground (arith, e, failed))
    | inl (index, chosen) ↦ elim (Result-cases (get_item s.readers index)) [
      | inr (er, failed) ↦ absurd (ground (arith, e, chosen, failed))
      | inl (reader, there) ↦ elim (Result-cases (next_row reader)) [
        | inr (er, failed) ↦ absurd (ground (arith, e, chosen, there, failed))
        | inl ((row, reader'), got) ↦
            let (us, vs, whole, n) = found_split s.readers index reader there in
            let written : set_item s.readers index reader' ≡ ok (us ++ reader' ∷ vs) =
              rw whole (set_item_middle us reader reader' vs index n) in
            let same_index : index ≡ i = ground (arith, e, chosen, there, got, written) in
            let same_row : row ≡ x = ground (arith, e, chosen, there, got, written) in
            let after : record s { readers = us ++ reader' ∷ vs } ≡ s' =
              ground (arith, e, chosen, there, got, written) in
            rw (← after, whole, ← same_index, ← same_row)
              (one_taken us vs reader reader' row index j (next_row-cons reader reader' row got) n)
      ]
    ]
  ]

  pub run-next :
      (r : D) (rs : List D) (s s' s'' : WeightedSamplingReader T P) (i : ℕ) (x : T)
      (out : List (ℕ × T)) (stopped : Option Error)
      → next below r s ≡ ok (i, x, s')
      → run below rs s' ≡ (out, s'', stopped)
      → run below (r ∷ rs) s ≡ ((i, x) ∷ out, s'', stopped)
  unfolding run
  run-next r rs s s' s'' i x out stopped got rest = ground (arith, got, rest)

  pub run_stop :
      (r : D) (rs : List D) (s : WeightedSamplingReader T P) (e : Error)
      → next below r s ≡ raise e
      → run below (r ∷ rs) s ≡ ([], s, some e)
  unfolding run
  run_stop r rs s e failed = ground (arith, failed)
