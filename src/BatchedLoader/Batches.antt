-- ===== src/BatchedLoader/Batches.antt =====
-- How the batches that a buffer gives fall together with the batches of the specification.
use petastorm.Prelude.{
  drop_of_length-le, take_of_length-le, take-append-drop, length-take, leb, drop, take, ℕ, ◌+◌, ◌≤◌,
  ◌<◌, ◌≡◌, refl, ap, ◌∙◌, sym, min, Bool, true, false, List, [], ◌∷◌, ◌++◌, length, length-append,
  append_assoc, append-nil, ◌==◌, concat, arith, Bool-cases, inl, inr,
}
use petastorm.DataLoader.Chunks.{chunk, left_batch, all_chunks, AllSized}

module _ {A : Type 0} where
  -- Rows that complete the batch at hand.
  chunk-full :
      (n : ℕ) (acc xs ys : List A)
      → length acc + length xs ≡ n
      → 0 < length xs
      → chunk n acc (xs ++ ys) ≡ ((acc ++ xs) ∷ (chunk n [] ys).0, (chunk n [] ys).1)
  unfolding chunk
  chunk-full n acc [] ys e pos = absurd (omega arith)
  chunk-full n acc (x ∷ []) ys e pos =
      let full : (length (acc ++ x ∷ []) == n) ≡ true =
        ground (arith, length-append acc (x ∷ [])) in
      rw full
  chunk-full n acc (x ∷ x' ∷ xs) ys e pos =
      let part : (length (acc ++ x ∷ []) == n) ≡ false =
        ground (arith, e, length-append acc (x ∷ [])) in
      rw part (
        chunk-full n (acc ++ x ∷ []) (x' ∷ xs) ys (omega (arith, e, length-append acc (x ∷ [])))
          (omega arith)
        ∙ rw (append_assoc acc (x ∷ []) (x' ∷ xs)) refl)

  -- Rows that do not complete it.
  chunk-part :
      (n : ℕ) (acc xs : List A) → length acc + length xs < n → chunk n acc xs ≡ ([], acc ++ xs)
  unfolding chunk
  chunk-part n acc [] e = ap (λ us. ([], us)) (sym (append-nil acc))
  chunk-part n acc (x ∷ xs) e =
      let part : (length (acc ++ x ∷ []) == n) ≡ false =
        ground (arith, e, length-append acc (x ∷ [])) in
      rw part (
        chunk-part n (acc ++ x ∷ []) xs (omega (arith, e, length-append acc (x ∷ [])))
        ∙ rw (append_assoc acc (x ∷ []) xs) refl)

  -- Complete batches are found again among their rows.
  pub chunk-concat :
      (n : ℕ) (outs : List (List A)) (ys : List A)
      → 0 < n
      → AllSized n outs
      → all_chunks n [] (concat outs ++ ys) ≡ outs ++ all_chunks n [] ys
  chunk-concat n [] ys pos sized = refl
  chunk-concat n (o ∷ outs) ys pos (size, sized) =
      rw
        (
          append_assoc o (concat outs) ys,
          chunk-full n [] o (concat outs ++ ys) (omega (arith, size)) (omega (arith, pos, size)),
        )
        (ap (◌∷◌ o) (chunk-concat n outs ys pos sized))

  -- The batches before and after `finish`: complete ones, or those of a whole stretch of rows.
  abbrev pub Shape : ℕ → Bool → List (List A) → Type 0
  Shape n false outs = AllSized n outs
  Shape n true outs = outs ≡ all_chunks n [] (concat outs)

  empty : (xs : List A) → length xs ≡ 0 → xs ≡ []
  empty [] e = refl
  empty (x ∷ xs) e = absurd (omega arith)

  Shape-last :
      (n : ℕ) (out : List A) (outs : List (List A))
      → length out < n
      → 0 < length out
      → outs ≡ []
      → Shape n true (out ∷ outs)
  unfolding left_batch
  Shape-last n [] outs less pos last = absurd (omega arith)
  Shape-last n (x ∷ out) outs less pos last =
      rw (last, append-nil, chunk-part n [] (x ∷ out) (omega (arith, less))) refl

  -- A batch before the others. Only the last one may be short, and after it no rows are left.
  pub Shape-cons :
      (n : ℕ) (done : Bool) (out : List A) (outs : List (List A)) (all : ℕ)
      → 0 < n
      → 0 < all
      → length out ≡ min n all
      → (done ≡ false → n ≤ all)
      → length out + length (concat outs) ≤ all
      → Shape n done outs
      → Shape n done (out ∷ outs)
  unfolding chunk left_batch
  Shape-cons n false out outs all pos some_rows size enough total shape =
      (omega (arith, size, enough refl), shape)
  Shape-cons n true out outs all pos some_rows size enough total shape =
      elim (Bool-cases (length out == n)) [
        | inl full ↦
            let size' : length out ≡ n = ground (arith, full) in
            rw
              (chunk-full n [] out (concat outs) (omega (arith, size')) (omega (arith, size', pos)))
              (ap (◌∷◌ out) shape)
        | inr part ↦
            let less : length out < n = ground (arith, part, size) in
            let none_left : concat outs ≡ [] =
              empty (concat outs) (omega (arith, less, size, total)) in
            Shape-last n out outs less (omega (arith, size, some_rows, pos)) (rw none_left at shape)
      ]

pub Shape-nil : (A : Type 0) (n : ℕ) (done : Bool) → Shape {A = A} n done []
unfolding chunk left_batch
Shape-nil A n false = tt
Shape-nil A n true = refl

module _ {A : Type 0} where
  all_chunks-part :
      (n : ℕ) (xs : List A) → length xs < n → 0 < length xs → all_chunks n [] xs ≡ xs ∷ []
  unfolding left_batch
  all_chunks-part n [] less pos = absurd (omega arith)
  all_chunks-part n (x ∷ xs) less pos = rw (chunk-part n [] (x ∷ xs) (omega (arith, less))) refl

  -- The first batch of some rows, and those of the others.
  pub all_chunks-cons :
      (n : ℕ) (xs : List A)
      → 0 < n
      → 0 < length xs
      → all_chunks n [] xs ≡ take n xs ∷ all_chunks n [] (drop n xs)
  unfolding left_batch chunk
  all_chunks-cons n xs pos some_rows = elim (Bool-cases (leb n (length xs))) [
    | inl enough ↦
        let size : length (take n xs) ≡ n = ground (arith, enough, length-take n xs) in
        ap (all_chunks n []) (sym (take-append-drop n xs))
        ∙ rw
            (chunk-full n [] (take n xs) (drop n xs) (omega (arith, size))
              (omega (arith, size, pos)))
            refl
    | inr few ↦
        let less : length xs < n = ground (arith, few) in
        rw
          (
            take_of_length-le n xs (omega (arith, less)),
            drop_of_length-le n xs (omega (arith, less)),
          )
          (all_chunks-part n xs less some_rows)
  ]
