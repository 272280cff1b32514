-- ===== src/NGram/Windows.antt =====
-- The windows of the data, and the loop of `form_ngram` as a walk over them.
use petastorm.Prelude.{
  leb→le, ℕ, zero, suc, ◌+◌, ◌-◌, ◌<◌, ◌≡◌, refl, ap, ◌∙◌, sym, true, Option, none, List, [], ◌∷◌,
  ◌++◌, map, length, take, drop, drop_add, length-take, leb, if◌then◌else◌, Result, ok, ◌>>=◌,
  arith, Bool-cases, inl, inr,
}
use petastorm.NGram.Keys.{ℤ}
use petastorm.NGram.{NGram, Row, ngram_length, round, form_loop, form_ngram, range_from}

-- The runs of `n` neighbouring rows, in order.
unfoldable pub windows : {A : Type 0} → ℕ → List A → List (List A)
windows n [] = []
windows n (r ∷ rest) =
    let others = windows n rest in
    if leb n (length (r ∷ rest)) then take n (r ∷ rest) ∷ others else []

module _ {A : Type 0} where
  windows_short : (n : ℕ) (xs : List A) → length xs < n → windows n xs ≡ []
  unfolding windows
  windows_short n [] h = refl
  windows_short n (x ∷ xs) h = ground arith

  -- `range(len(data) - length + 1)` runs over the windows.
  pub windows_range :
      (n k i : ℕ) (xs ys : List A)
      → 0 < n
      → drop i xs ≡ ys
      → k ≡ length ys + 1 - n
      → map (λ index. take n (drop index xs)) (range_from i k) ≡ windows n ys
  unfolding windows range_from
  windows_range n zero i xs ys pos e k = sym (windows_short n ys (omega arith))
  windows_range n (suc k) i xs [] pos e less = absurd (omega arith)
  windows_range n (suc k) i xs (y ∷ ys) pos e less =
      let rest : drop (i + 1) xs ≡ ys = rw (drop_add i 1 xs, e) in
      let fits : leb n (length (y ∷ ys)) ≡ true = ground arith in
      rw (e, fits, windows_range n k (i + 1) xs ys pos rest (omega arith))

  abbrev pub AllLong : ℕ → List (List A) → Type 0
  AllLong n [] = Unit
  AllLong n (w ∷ ws) = (length w ≡ n) × AllLong n ws

  pub windows-AllLong : (n : ℕ) (xs : List A) → AllLong n (windows n xs)
  unfolding windows
  windows-AllLong n [] = tt
  windows-AllLong n (x ∷ xs) = elim (Bool-cases (leb n (length (x ∷ xs)))) [
    | inl fits ↦ rw fits (
        (
          omega (arith, length-take n (x ∷ xs), leb→le n (length (x ∷ xs)) fits),
          windows-AllLong n xs,
        ))
    | inr short ↦ rw short tt
  ]

module _ {V : Type 0} (timestamp : Row V → ℕ) where
  -- The loop over the windows themselves.
  unfoldable pub walk : NGram → Option ℕ → List (List (Row V)) → Result (List (List (ℤ × Row V)))
  walk g prev [] = ok []
  walk g prev (w ∷ ws) = do
    (new, prev') ← round timestamp g prev w
    rest ← walk g prev' ws
    ok (new ++ rest)

  form_loop-walk :
      (g : NGram) (rows : List (Row V)) (prev : Option ℕ) (indices : List ℕ)
      → form_loop timestamp g rows prev indices
        ≡ walk g prev (map (λ index. take (ngram_length g) (drop index rows)) indices)
  unfolding walk form_loop
  form_loop-walk g rows prev [] = refl
  form_loop-walk g rows prev (i ∷ is) =
      ap (λ next. round timestamp g prev (take (ngram_length g) (drop i rows)) >>= next)
        (λ j x. form_loop-walk g rows x.1 is j >>= λ rest. ok (x.0 ++ rest))

  pub form_ngram-walk :
      (g : NGram) (rows : List (Row V))
      → form_ngram timestamp g rows ≡ walk g none (windows (ngram_length g) rows)
  unfolding form_ngram ngram_length
  form_ngram-walk g rows =
      form_loop-walk g rows none _
      ∙ ap (walk g none) (windows_range (ngram_length g) _ 0 rows rows (omega arith) refl refl)
