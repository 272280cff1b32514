-- ===== src/DataLoader/Chunks.antt =====
-- How a stream of rows falls into batches: the specification of the batching.
use petastorm.Prelude.{
  concat-append, ℕ, ◌<◌, ◌≡◌, refl, ◌∙◌, sym, List, [], ◌∷◌, ◌++◌, length, ◌==◌, if◌then◌else◌,
  concat, append_assoc, append-nil, length-append, arith, Bool-cases, inl, inr,
}

module _ {A : Type 0} where
  -- The complete batches of `n` rows and the rows that are left, from the rows `acc` at hand.
  unfoldable pub chunk : ℕ → List A → List A → List (List A) × List A
  chunk n acc [] = ([], acc)
  chunk n acc (x ∷ xs) =
      let full = chunk n [] xs in
      let more = chunk n (acc ++ x ∷ []) xs in
      if length (acc ++ x ∷ []) == n then ((acc ++ x ∷ []) ∷ full.0, full.1) else more

  -- No row is lost, none is repeated, and the order is kept.
  pub concat-chunk :
      (n : ℕ) (acc xs : List A) → concat (chunk n acc xs).0 ++ (chunk n acc xs).1 ≡ acc ++ xs
  unfolding chunk
  concat-chunk n acc [] = sym (append-nil acc)
  concat-chunk n acc (x ∷ xs) = elim (Bool-cases (length (acc ++ x ∷ []) == n)) [
    | inl full ↦
        rw (full, append_assoc (acc ++ x ∷ []), concat-chunk n [] xs) (append_assoc acc (x ∷ []) xs)
    | inr part ↦ rw part (concat-chunk n (acc ++ x ∷ []) xs ∙ append_assoc acc (x ∷ []) xs)
  ]

  abbrev pub AllSized : ℕ → List (List A) → Type 0
  AllSized n [] = Unit
  AllSized n (b ∷ bs) = (length b ≡ n) × AllSized n bs

  -- Every complete batch has `n` rows, and fewer than `n` rows are left.
  pub chunk-AllSized :
      (n : ℕ) (acc xs : List A)
      → length acc < n
      → AllSized n (chunk n acc xs).0 × (length (chunk n acc xs).1 < n)
  unfolding chunk
  chunk-AllSized n acc [] h = (tt, h)
  chunk-AllSized n acc (x ∷ xs) h =
      let size = length-append acc (x ∷ []) in
      elim (Bool-cases (length (acc ++ x ∷ []) == n)) [
        | inl full ↦
            let (sized, less) = chunk-AllSized n [] xs (omega arith) in
            rw full ((ground arith, sized), less)
        | inr part ↦ rw part (chunk-AllSized n (acc ++ x ∷ []) xs (ground (arith, size, part)))
      ]

  -- Batching goes on where it stopped.
  pub chunk-append :
      (n : ℕ) (acc xs ys : List A)
      → chunk n acc (xs ++ ys) ≡ (
        (chunk n acc xs).0 ++ (chunk n (chunk n acc xs).1 ys).0,
        (chunk n (chunk n acc xs).1 ys).1,
      )
  unfolding chunk
  chunk-append n acc [] ys = refl
  chunk-append n acc (x ∷ xs) ys = elim (Bool-cases (length (acc ++ x ∷ []) == n)) [
    | inl full ↦ rw (full, chunk-append n [] xs ys)
    | inr part ↦ rw (part, chunk-append n (acc ++ x ∷ []) xs ys)
  ]

  -- The rows that are left make a batch, if there are any.
  unfoldable pub left_batch : List A → List (List A)
  left_batch [] = []
  left_batch (x ∷ rest) = (x ∷ rest) ∷ []

  -- The batches of a whole pass.
  abbrev pub all_chunks : ℕ → List A → List A → List (List A)
  all_chunks n acc xs = (chunk n acc xs).0 ++ left_batch (chunk n acc xs).1

  concat-left_batch : (rest : List A) → concat (left_batch rest) ≡ rest
  unfolding left_batch
  concat-left_batch [] = refl
  concat-left_batch (x ∷ rest) = append-nil (x ∷ rest)

  -- The batches of a whole pass hold all rows, in their order.
  pub concat-all_chunks : (n : ℕ) (acc xs : List A) → concat (all_chunks n acc xs) ≡ acc ++ xs
  concat-all_chunks n acc xs =
      rw (concat-append (chunk n acc xs).0, concat-left_batch (chunk n acc xs).1)
        (concat-chunk n acc xs)
