-- ===== src/RowGroupWorker/Stretches.antt =====
-- The rows of a partition, for indexes that never get smaller.
use petastorm.Prelude.{
  take-nil, ℕ, zero, suc, ◌+◌, ◌≤◌, ◌<◌, ◌≡◌, refl, ap, ◌∙◌, sym, true, false, List, [], ◌∷◌, ◌++◌,
  map, length, take, concat, leb, ◌==◌, arith, Bool-cases, inl, inr,
}
use petastorm.NGram.{range_from}
use petastorm.RowGroupWorker.{pick, mark_next}

-- Indexes from `low` on that never get smaller.
abbrev pub Ascending : ℕ → List ℕ → Type 0
Ascending low [] = Unit
Ascending low (i ∷ is) = (low ≤ i) × Ascending i is

abbrev pub AllUnder : ℕ → List ℕ → Type 0
AllUnder n [] = Unit
AllUnder n (i ∷ is) = (i < n) × AllUnder n is

Ascending-le : (a b : ℕ) (is : List ℕ) → a ≤ b → Ascending b is → Ascending a is
Ascending-le a b [] h s = tt
Ascending-le a b (i ∷ is) h (e, s) = (omega (arith, h, e), s)

mark_next-keep : (p n i : ℕ) (is : List ℕ) → i ≤ p → mark_next p n (i ∷ is) ≡ i ∷ mark_next p n is
unfolding mark_next
mark_next-keep p zero i [] h = refl
mark_next-keep p zero i (j ∷ is) h = refl
mark_next-keep p (suc n) i is h = let early : leb (p + 1) i ≡ false = ground (arith, h) in rw early

module _ {R : Type 0} where
  -- The partitions from `a` on, `c` of them.
  abbrev pub parts : ℕ → ℕ → List ℕ → List R → List (List R)
  parts a c is rows = map (λ p. pick p is rows) (range_from a c)

  pick-hit :
      (p i : ℕ) (is : List ℕ) (r : R) (rows : List R)
      → i ≡ p
      → pick p (i ∷ is) (r ∷ rows) ≡ r ∷ pick p is rows
  unfolding pick
  pick-hit p i is r rows e = let same : (i == p) ≡ true = ground (arith, e) in rw same

  pick-miss :
      (p i : ℕ) (is : List ℕ) (r : R) (rows : List R)
      → (i < p)
      → pick p (i ∷ is) (r ∷ rows) ≡ pick p is rows
  unfolding pick
  pick-miss p i is r rows e = let other : (i == p) ≡ false = ground (arith, e) in rw other

  pick-above : (p : ℕ) (is : List ℕ) (rows : List R) → Ascending (suc p) is → pick p is rows ≡ []
  unfolding pick
  pick-above p [] rows s = refl
  pick-above p (i ∷ is) [] s = refl
  pick-above p (i ∷ is) (r ∷ rows) (e, s) =
      let other : (i == p) ≡ false = ground (arith, e) in
      rw other (pick-above p is rows (Ascending-le (suc p) i is (omega (arith, e)) s))

  -- The first row does not belong to later partitions.
  parts-later :
      (a c i : ℕ) (is : List ℕ) (r : R) (rows : List R)
      → i < a
      → parts a c (i ∷ is) (r ∷ rows) ≡ parts a c is rows
  unfolding range_from
  parts-later a zero i is r rows e = refl
  parts-later a (suc c) i is r rows e =
      rw (pick-miss a i is r rows e, parts-later (a + 1) c i is r rows (omega (arith, e)))

  parts-cons :
      (a c i : ℕ) (is : List ℕ) (r : R) (rows : List R)
      → a ≤ i
      → i < a + c
      → Ascending i is
      → concat (parts a c (i ∷ is) (r ∷ rows)) ≡ r ∷ concat (parts a c is rows)
  unfolding range_from
  parts-cons a zero i is r rows low high s = absurd (omega (arith, low, high))
  parts-cons a (suc c) i is r rows low high s = elim (Bool-cases (i == a)) [
    | inl same ↦
        let e : i ≡ a = ground (arith, same) in
        rw (pick-hit a i is r rows e, parts-later (a + 1) c i is r rows (omega (arith, e))) refl
    | inr other ↦
        let more : a < i = ground (arith, other, low) in
        let none_here = pick-above a is rows (Ascending-le (suc a) i is (omega (arith, more)) s) in
        let none_there = pick-above a (i ∷ is) (r ∷ rows) (omega (arith, more), s) in
        rw (none_there, none_here)
          (parts-cons (a + 1) c i is r rows (omega (arith, more)) (omega (arith, high)) s)
  ]

  no_parts : (a c : ℕ) → concat (parts a c [] []) ≡ []
  unfolding range_from pick
  no_parts a zero = refl
  no_parts a (suc c) = no_parts (a + 1) c

  pub concat-parts :
      (a c : ℕ) (is : List ℕ) (rows : List R)
      → Ascending a is
      → AllUnder (a + c) is
      → length is ≡ length rows
      → concat (parts a c is rows) ≡ rows
  concat-parts a c [] [] s u e = no_parts a c
  concat-parts a c [] (r ∷ rows) s u e = absurd (omega (arith, e))
  concat-parts a c (i ∷ is) [] s u e = absurd (omega (arith, e))
  concat-parts a c (i ∷ is) (r ∷ rows) (low, s) (high, u) e =
      parts-cons a c i is r rows low high s
      ∙ ap (◌∷◌ r) (concat-parts a c is rows (Ascending-le a i is low s) u (omega (arith, e)))

  -- Behind a partition all indexes are later ones, and the next ones are marked.
  mark_next-pick :
      (p n low : ℕ) (is : List ℕ) (rows : List R)
      → Ascending low is
      → p < low
      → length is ≡ length rows
      → pick p (mark_next p n is) rows ≡ take n rows
  unfolding pick mark_next
  mark_next-pick p zero low [] [] s h e = refl
  mark_next-pick p (suc n) low [] [] s h e = refl
  mark_next-pick p n low [] (r ∷ rows) s h e = absurd (omega (arith, e))
  mark_next-pick p n low (i ∷ is) [] s h e = absurd (omega (arith, e))
  mark_next-pick p zero low (i ∷ is) (r ∷ rows) (le, s) h e =
      pick-above p (i ∷ is) (r ∷ rows) (omega (arith, le, h), s)
  mark_next-pick p (suc n) low (i ∷ is) (r ∷ rows) (le, s) h e =
      let later : leb (p + 1) i ≡ true = ground (arith, le, h) in
      let same : (p == p) ≡ true = ground arith in
      rw (later, same)
        (ap (◌∷◌ r) (mark_next-pick p n i is rows s (omega (arith, le, h)) (omega (arith, e))))

  -- A partition is a stretch of the rows, and the rows that are added to it come right behind.
  abbrev Stretch : ℕ → ℕ → List ℕ → List R → Type 0
  Stretch p n is rows =
      (before after : List R) × (rows ≡ before ++ (pick p is rows ++ after))
      × (pick p (mark_next p n is) rows ≡ pick p is rows ++ take n after)

  no_rows_picked :
      (p n : ℕ)
      → ([] ≡ pick {R = R} p [] [] ++ [])
        × (pick {R = R} p (mark_next p n []) [] ≡ pick p [] [] ++ take n [])
  unfolding pick mark_next
  no_rows_picked p n = (refl, sym (take-nil n))

  -- From the start of the partition on.
  inside :
      (p n low : ℕ) (is : List ℕ) (rows : List R)
      → Ascending low is
      → p ≤ low
      → length is ≡ length rows
      → (after : List R) × (rows ≡ pick p is rows ++ after)
        × (pick p (mark_next p n is) rows ≡ pick p is rows ++ take n after)
  inside p n low [] [] s h e = let (whole, marked) = no_rows_picked p n in ([], whole, marked)
  inside p n low [] (r ∷ rows) s h e = absurd (omega (arith, e))
  inside p n low (i ∷ is) [] s h e = absurd (omega (arith, e))
  inside p n low (i ∷ is) (r ∷ rows) (le, s) h e = elim (Bool-cases (i == p)) [
    | inl same ↦
        let hit : i ≡ p = ground (arith, same) in
        let (after, whole, marked) =
          inside p n i is rows s (omega (arith, hit)) (omega (arith, e)) in
        (
          after,
          rw (pick-hit p i is r rows hit) (ap (◌∷◌ r) whole),
          rw
              (
                mark_next-keep p n i is (omega (arith, hit)),
                pick-hit p i is r rows hit,
                pick-hit p i (mark_next p n is) r rows hit,
              )
              (ap (◌∷◌ r) marked),
        )
    | inr other ↦
        let more : p < i = ground (arith, other, le, h) in
        let nothing = pick-above p (i ∷ is) (r ∷ rows) (omega (arith, more), s) in
        (
          r ∷ rows,
          rw nothing refl,
          rw nothing (mark_next-pick p n i (i ∷ is) (r ∷ rows) (omega arith, s) more e),
        )
  ]

  pub stretch :
      (p n low : ℕ) (is : List ℕ) (rows : List R)
      → Ascending low is
      → length is ≡ length rows
      → Stretch p n is rows
  stretch p n low [] [] s e =
      let (after, whole, marked) = inside p n p [] [] tt (omega arith) e in
      ([], after, whole, marked)
  stretch p n low [] (r ∷ rows) s e = absurd (omega (arith, e))
  stretch p n low (i ∷ is) [] s e = absurd (omega (arith, e))
  stretch p n low (i ∷ is) (r ∷ rows) (le, s) e = elim (Bool-cases (leb p i)) [
    | inl from ↦
        let (after, whole, marked) =
          inside p n i (i ∷ is) (r ∷ rows) (omega arith, s) (ground (arith, from)) e in
        ([], after, whole, marked)
    | inr before_it ↦
        let less : i < p = ground (arith, before_it) in
        let (before, after, whole, marked) = stretch p n i is rows s (omega (arith, e)) in
        (
          r ∷ before,
          after,
          rw (pick-miss p i is r rows less) (ap (◌∷◌ r) whole),
          rw
              (
                mark_next-keep p n i is (omega (arith, less)),
                pick-miss p i is r rows less,
                pick-miss p i (mark_next p n is) r rows less,
              )
              marked,
        )
  ]
