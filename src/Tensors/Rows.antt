-- ===== src/Tensors/Rows.antt =====
-- The operations on tensors and the rows they stand for.
use petastorm.Prelude.{
  drop_add, ℕ, zero, suc, ◌+◌, ◌-◌, ◌≡◌, refl, ap, ◌∙◌, sym, min, List, [], ◌∷◌, ◌++◌, map,
  map-append, length, length-map, take, drop, replicate, Result-cases, ok, arith, inl, inr,
}
use petastorm.Indexing.{get_item, get_item_in_range, set_slice}
use petastorm.Tensors.{slice, gather, broadcast, assign}
use petastorm.Tensors.Randperm.{AllBelow}

module _ {A : Type 0} where
  broadcast_same : (n : ℕ) (vs : List A) → length vs ≡ n → broadcast n vs ≡ ok vs
  unfolding broadcast
  broadcast_same n [] e = ground arith
  broadcast_same n (x ∷ []) e = ap (λ k. ok (replicate k x)) (sym e)
  broadcast_same n (x ∷ y ∷ vs) e = ground arith

  -- An assignment of as many rows as the slice has.
  pub assign_same :
      (low high : ℕ) (xs vs : List A)
      → length vs ≡ min high (length xs) - low
      → assign low high xs vs ≡ ok (set_slice xs low high vs)
  unfolding assign
  assign_same low high xs vs e = rw (broadcast_same (min high (length xs) - low) vs e)

  pub gather_nothing : (xs : List A) → gather xs [] ≡ ok []
  unfolding gather
  gather_nothing xs = refl

  pub gather_cons :
      (xs : List A) (i : ℕ) (is : List ℕ) (x : A) (ys : List A)
      → get_item xs i ≡ ok x
      → gather xs is ≡ ok ys
      → gather xs (i ∷ is) ≡ ok (x ∷ ys)
  unfolding gather
  gather_cons xs i is x ys e f = rw (e, f)

module _ {A B : Type 0} (f : A → B) where
  pub take-map : (n : ℕ) (xs : List A) → take n (map f xs) ≡ map f (take n xs)
  take-map zero xs = refl
  take-map (suc n) [] = refl
  take-map (suc n) (x ∷ xs) = ap (◌∷◌ (f x)) (take-map n xs)

  pub drop-map : (n : ℕ) (xs : List A) → drop n (map f xs) ≡ map f (drop n xs)
  drop-map zero xs = refl
  drop-map (suc n) [] = refl
  drop-map (suc n) (x ∷ xs) = drop-map n xs

  pub replicate-map : (n : ℕ) (x : A) → replicate n (f x) ≡ map f (replicate n x)
  replicate-map zero x = refl
  replicate-map (suc n) x = ap (◌∷◌ (f x)) (replicate-map n x)

  pub set_slice-map :
      (low high : ℕ) (xs vs : List A)
      → set_slice (map f xs) low high (map f vs) ≡ map f (set_slice xs low high vs)
  unfolding set_slice
  set_slice-map low high xs vs = rw (take-map, drop-map, map-append, map-append)

  get_item-map :
      (xs : List A) (i : ℕ) (x : A) → get_item xs i ≡ ok x → get_item (map f xs) i ≡ ok (f x)
  unfolding get_item
  get_item-map [] i x e = absurd (ground arith)
  get_item-map (y ∷ xs) zero x e = ground arith
  get_item-map (y ∷ xs) (suc i) x e = get_item-map xs i x e

  pub gather-map :
      (xs : List A) (is : List ℕ) (ys : List A)
      → gather xs is ≡ ok ys
      → gather (map f xs) is ≡ ok (map f ys)
  unfolding gather
  gather-map xs [] ys e = ground arith
  gather-map xs (i ∷ is) ys e = elim (Result-cases (get_item xs i)) [
    | inl (x, found) ↦ elim (Result-cases (gather xs is)) [
      | inl (zs, rest) ↦
          ground (arith, found, rest, get_item-map xs i x found, gather-map xs is zs rest)
      | inr (e', failed) ↦ absurd (ground (arith, found, failed))
    ]
    | inr (e', failed) ↦ absurd (ground (arith, failed))
  ]

  pub assign-map :
      (low high : ℕ) (xs vs : List A)
      → length vs ≡ min high (length xs) - low
      → assign low high (map f xs) (map f vs) ≡ ok (map f (set_slice xs low high vs))
  assign-map low high xs vs e =
      assign_same low high (map f xs) (map f vs)
        (omega (arith, e, length-map f xs, length-map f vs))
      ∙ ap ok (set_slice-map low high xs vs)

module _ {A : Type 0} where
  -- Indices below the length find their rows.
  pub gather-AllBelow :
      (xs : List A) (is : List ℕ)
      → AllBelow (length xs) is
      → (ys : List A) × (gather xs is ≡ ok ys) × (length ys ≡ length is)
  unfolding gather
  gather-AllBelow xs [] below = ([], refl, refl)
  gather-AllBelow xs (i ∷ is) below =
      let (x, found, e) = get_item_in_range xs i below.0 in
      let (ys, rest, n) = gather-AllBelow xs is below.1 in
      (x ∷ ys, gather_cons xs i is x ys found rest, ap suc n)

  get_item-append :
      (xs zs : List A) (i : ℕ) (x : A) → get_item xs i ≡ ok x → get_item (xs ++ zs) i ≡ ok x
  unfolding get_item
  get_item-append [] zs i x e = absurd (ground arith)
  get_item-append (y ∷ xs) zs zero x e = e
  get_item-append (y ∷ xs) zs (suc i) x e = get_item-append xs zs i x e

  -- Rows behind the ones that are meant do not matter.
  pub gather-append :
      (xs zs : List A) (is : List ℕ) (ys : List A)
      → gather xs is ≡ ok ys
      → gather (xs ++ zs) is ≡ ok ys
  unfolding gather
  gather-append xs zs [] ys e = e
  gather-append xs zs (i ∷ is) ys e = elim (Result-cases (get_item xs i)) [
    | inl (x, found) ↦ elim (Result-cases (gather xs is)) [
      | inl (us, rest) ↦
          ground
            (arith, found, rest, get_item-append xs zs i x found, gather-append xs zs is us rest)
      | inr (e', failed) ↦ absurd (ground (arith, found, failed))
    ]
    | inr (e', failed) ↦ absurd (ground (arith, failed))
  ]

  -- Indices in two stretches.
  pub gather_split :
      (xs : List A) (n : ℕ) (is : List ℕ) (ys : List A)
      → gather xs is ≡ ok ys
      → (gather xs (take n is) ≡ ok (take n ys)) × (gather xs (drop n is) ≡ ok (drop n ys))
  unfolding gather
  gather_split xs zero is ys e = (refl, e)
  gather_split xs (suc n) [] ys e =
      let none_left : ys ≡ [] = ground arith in rw none_left (refl, refl)
  gather_split xs (suc n) (i ∷ is) ys e = elim (Result-cases (get_item xs i)) [
    | inl (x, found) ↦ elim (Result-cases (gather xs is)) [
      | inl (zs, rest) ↦
          let whole : ys ≡ x ∷ zs = ground (arith, found, rest) in
          let (front, back) = gather_split xs n is zs rest in
          rw whole (gather_cons xs i (take n is) x (take n zs) found front, back)
      | inr (e', failed) ↦ absurd (ground (arith, found, failed))
    ]
    | inr (e', failed) ↦ absurd (ground (arith, failed))
  ]

  -- A slice of the indices, and the indices behind it.
  pub gather-slice :
      (all zs : List A) (indices : List ℕ) (head n : ℕ)
      → gather all (drop head indices) ≡ ok zs
      → (gather all (slice head (head + n) indices) ≡ ok (take n zs))
        × (gather all (drop (head + n) indices) ≡ ok (drop n zs))
  unfolding slice
  gather-slice all zs indices head n found =
      let width : head + n - head ≡ n = omega arith in
      let (front, back) = gather_split all n (drop head indices) zs found in
      (rw width front, rw (drop_add head n indices) back)

  pub length-gather :
      (xs : List A) (is : List ℕ) (ys : List A) → gather xs is ≡ ok ys → length ys ≡ length is
  unfolding gather
  length-gather xs [] ys e = let none_left : ys ≡ [] = ground arith in rw none_left
  length-gather xs (i ∷ is) ys e = elim (Result-cases (get_item xs i)) [
    | inl (x, found) ↦ elim (Result-cases (gather xs is)) [
      | inl (zs, rest) ↦
          let whole : ys ≡ x ∷ zs = ground (arith, found, rest) in
          rw whole (ap suc (length-gather xs is zs rest))
      | inr (e', failed) ↦ absurd (ground (arith, found, failed))
    ]
    | inr (e', failed) ↦ absurd (ground (arith, failed))
  ]
