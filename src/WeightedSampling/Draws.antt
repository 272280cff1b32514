-- ===== src/WeightedSampling/Draws.antt =====
-- Which reader each draw takes a row from, and how the iteration ends.
use petastorm.Prelude.{
  ◌⊎◌, ℕ, zero, suc, ◌≤◌, ◌<◌, ◌≡◌, refl, ap, ◌∙◌, Bool, true, false, Bool-cases, Option, none,
  some, List, [], ◌∷◌, ◌++◌, length, length-append, get_elem?, ok, raise, stop_iteration, Error,
  arith, inl, inr,
}
use petastorm.Indexing.{set_item, set_item_middle, get_item_in_range}
use petastorm.WeightedSampling.{
  Reader, WeightedSamplingReader, take_row, next_row, reader_index, next, run,
}
use petastorm.WeightedSampling.Streams.{
  rows_of, taken_from, taken_more, found_split, next-one, run-next, run_stop,
}

module _ {P D : Type 0} (below : D → P → Bool) where
  -- The draw lies in the interval of the reader `i`: below its cumulative probability, and not below that
  -- of any reader before it.
  pub record IsDrawn (cum_prob : List P) (r : D) (i : ℕ) : Type 0 where
    pub upper : P
    pub upper_end : get_elem? cum_prob i ≡ some upper
    pub under : below r upper ≡ true
    pub not_under : (j : ℕ) (p : P) → j < i → get_elem? cum_prob j ≡ some p → below r p ≡ false

  -- Every draw is below one of the cumulative probabilities.
  abbrev pub AreCovered : List P → List D → Type 0
  AreCovered cum_prob [] = Unit {0}
  AreCovered cum_prob (r ∷ rs) =
      ((i : ℕ) × (p : P) × (get_elem? cum_prob i ≡ some p) × (below r p ≡ true))
      × AreCovered cum_prob rs

  -- Each row comes from the reader whose interval its draw lies in. Either all draws are used, or the
  -- next one is for a reader that has no rows left.
  pub data Follows {T : Type 0} (cum_prob : List P) (left : ℕ → List T)
      : List D → List (ℕ × T) → Option Error → Type 0 where
    all_used : (stopped : Option Error) → stopped ≡ none → Follows cum_prob left [] [] stopped
    exhausted :
        (r : D) (rs : List D) (stopped : Option Error) (i : ℕ)
        → stopped ≡ some stop_iteration
        → IsDrawn cum_prob r i
        → left i ≡ []
        → Follows cum_prob left (r ∷ rs) [] stopped
    drawn :
        (r : D) (rs : List D) (i : ℕ) (row : T) (out : List (ℕ × T)) (stopped : Option Error)
        → IsDrawn cum_prob r i
        → Follows cum_prob left rs out stopped
        → Follows cum_prob left (r ∷ rs) ((i, row) ∷ out) stopped

  first-IsDrawn : (r : D) (p : P) (ps : List P) → below r p ≡ true → IsDrawn (p ∷ ps) r zero
  first-IsDrawn r p ps b = record {
    upper = p;
    upper_end = refl;
    under = b;
    not_under = λ j q h e. absurd (omega (arith, h));
  }

  later_not_under :
      (r : D) (p : P) (ps : List P) (i j : ℕ) (q : P)
      → below r p ≡ false
      → IsDrawn ps r i
      → j < suc i
      → get_elem? (p ∷ ps) j ≡ some q
      → below r q ≡ false
  later_not_under r p ps i zero q b d h e = let same : p ≡ q = cc in rw (← same) b
  later_not_under r p ps i (suc j) q b d h e = d.not_under j q (omega (arith, h)) e

  later-IsDrawn :
      (r : D) (p : P) (ps : List P) (i : ℕ)
      → below r p ≡ false
      → IsDrawn ps r i
      → IsDrawn (p ∷ ps) r (suc i)
  later-IsDrawn r p ps i b d = record {
    upper = d.upper;
    upper_end = d.upper_end;
    under = d.under;
    not_under = λ j q. later_not_under r p ps i j q b d;
  }

  reader_index_first :
      (r : D) (p : P) (ps : List P) → below r p ≡ true → reader_index below r (p ∷ ps) ≡ ok zero
  unfolding reader_index
  reader_index_first r p ps b = rw (reader_index, b) refl

  reader_index_later :
      (r : D) (p : P) (ps : List P) (i : ℕ)
      → below r p ≡ false
      → reader_index below r ps ≡ ok i
      → reader_index below r (p ∷ ps) ≡ ok (suc i)
  unfolding reader_index
  reader_index_later r p ps i b e = rw (reader_index, b) (rw e refl)

  reader_index-IsDrawn :
      (r : D) (cum_prob : List P) (k : ℕ) (q : P)
      → get_elem? cum_prob k ≡ some q
      → below r q ≡ true
      → (i : ℕ) × (reader_index below r cum_prob ≡ ok i)
        × IsDrawn cum_prob r i
        × (i < length cum_prob)
  reader_index-IsDrawn r [] k q e b = cc
  reader_index-IsDrawn r (p ∷ ps) zero q e b =
      let same : p ≡ q = cc in
      let b' : below r p ≡ true = rw same b in
      (zero, reader_index_first r p ps b', first-IsDrawn r p ps b', omega arith)
  reader_index-IsDrawn r (p ∷ ps) (suc k) q e b = elim (Bool-cases (below r p)) [
    | inl first ↦ (zero, reader_index_first r p ps first, first-IsDrawn r p ps first, omega arith)
    | inr later ↦
        let (i, found, d, inside) = reader_index-IsDrawn r ps k q e b in
        (
          suc i,
          reader_index_later r p ps i later found,
          later-IsDrawn r p ps i later d,
          omega (arith, inside),
        )
  ]

-- The reader of an index is either without rows, or gives its first one.
rows_of_split :
    {T : Type 0} (us vs : List (Reader T)) (r : Reader T) (i : ℕ)
    → length us ≡ i
    → rows_of (us ++ r ∷ vs) i ≡ r.rows
rows_of_split [] vs r zero e = refl
rows_of_split [] vs r (suc i) e = absurd (omega (arith, e))
rows_of_split (u ∷ us) vs r zero e = absurd (omega (arith, e))
rows_of_split (u ∷ us) vs r (suc i) e = rows_of_split us vs r i (omega (arith, e))

take_row-cases :
    {T : Type 0} (r : Reader T) (xs : List T)
    → r.rows ≡ xs
    → ((r.rows ≡ []) × (take_row r xs ≡ raise stop_iteration))
      ⊎ ((x : T) × (r' : Reader T) × (take_row r xs ≡ ok (x, r')))
unfolding take_row
take_row-cases r [] e = inl (e, refl)
take_row-cases r (x ∷ xs) e = inr (x, record r { rows = xs }, refl)

next_row-cases :
    {T : Type 0} (r : Reader T)
    → ((r.rows ≡ []) × (next_row r ≡ raise stop_iteration))
      ⊎ ((x : T) × (r' : Reader T) × (next_row r ≡ ok (x, r')))
unfolding next_row
next_row-cases r = take_row-cases r r.rows refl

module _ {T P D : Type 0} (below : D → P → Bool) where
  next-drawn :
      (r : D) (s : WeightedSamplingReader T P) (i : ℕ)
      → reader_index below r s.cum_prob ≡ ok i
      → i < length s.readers
      → ((rows_of s.readers i ≡ []) × (next below r s ≡ raise stop_iteration))
        ⊎ ((x : T) × (s' : WeightedSamplingReader T P) × (next below r s ≡ ok (i, x, s'))
            × (s'.cum_prob ≡ s.cum_prob)
            × (length s'.readers ≡ length s.readers))
  unfolding next
  next-drawn r s i chosen inside =
      let (reader, there, prefix) = get_item_in_range s.readers i inside in
      let (us, vs, whole, n) = found_split s.readers i reader there in
      elim (next_row-cases reader) [
        | inl (empty, stops) ↦ inl (
          rw whole (rows_of_split us vs reader i n ∙ empty),
          ground (arith, chosen, there, stops),
        )
        | inr (x, reader', got) ↦
            let written : set_item s.readers i reader' ≡ ok (us ++ reader' ∷ vs) =
              rw whole (set_item_middle us reader reader' vs i n) in
            let size : length (us ++ reader' ∷ vs) ≡ length s.readers =
              rw (whole, length-append us, length-append us) refl in
            inr (
              x,
              record s { readers = us ++ reader' ∷ vs },
              ground (arith, chosen, there, got, written),
              refl,
              size,
            )
      ]

  -- When there is a reader for each cumulative probability and each draw is below one of them: each row
  -- comes from the reader whose interval its draw lies in, in the order of the draws; the rows that a
  -- reader had are those that came out of it, in their order, and those that it still has; and the
  -- iteration stops early only by StopIteration, at a draw for a reader that has no rows left.
  pub run-Follows :
      (draws : List D) (s : WeightedSamplingReader T P)
      → length s.cum_prob ≤ length s.readers
      → AreCovered below s.cum_prob draws
      → (out : List (ℕ × T)) × (s' : WeightedSamplingReader T P) × (stopped : Option Error) × (run
            below draws s
          ≡ (out, s', stopped))
        × ((j : ℕ) → rows_of s.readers j ≡ taken_from j out ++ rows_of s'.readers j)
        × Follows below s.cum_prob (rows_of s'.readers) draws out stopped
  unfolding run
  run-Follows [] s enough covered = ([], s, none, refl, λ j. refl, all_used none refl)
  run-Follows (r ∷ rs) s enough ((k, p, e, b), covered) =
      let (i, chosen, d, inside) = reader_index-IsDrawn below r s.cum_prob k p e b in
      elim (next-drawn r s i chosen (omega (arith, inside, enough))) [
        | inl (empty, stops) ↦ (
          [],
          s,
          some stop_iteration,
          run_stop below r rs s stop_iteration stops,
          λ j. refl,
          exhausted r rs (some stop_iteration) i refl d empty,
        )
        | inr (x, s', got, same_prob, size) ↦
            let (out, s'', stopped, runs, kept, follows) =
              run-Follows rs s' (rw (same_prob, size) enough) (rw same_prob covered) in
            (
              (i, x) ∷ out,
              s'',
              stopped,
              run-next below r rs s s' s'' i x out stopped got runs,
              λ j.
                  next-one below r s s' i j x got
                  ∙ ap (λ us. taken_from j ((i, x) ∷ []) ++ us) (kept j)
                  ∙ taken_more j i x out (rows_of s''.readers j),
              drawn r rs i x out stopped d (rw same_prob at follows),
            )
      ]
