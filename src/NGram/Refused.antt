-- ===== src/NGram/Refused.antt =====
-- When `form_ngram` refuses the data.
use petastorm.Prelude.{
  ℕ, zero, suc, ◌≤◌, ◌≡◌, ◌↔◌, refl, ◌∙◌, Bool, true, false, ◌&&◌, Option, none, some, List, [],
  ◌∷◌, length, if◌then◌else◌, ok, raise, not_implemented_error, arith, Bool-cases, inl, inr,
}
use petastorm.NGram.Keys.{ℤ}
use petastorm.NGram.{NGram, Row, ngram_length, is_sorted, round, form_ngram, label}
use petastorm.NGram.Windows.{windows, walk, AllLong, windows-AllLong, form_ngram-walk}
use petastorm.NGram.Sorted.{all_sorted, all_sorted-is_sorted}
use petastorm.NGram.Chosen.{
  round_overlapping, round_apart, last_stamp, later, near, form_ngram_overlapping, form_ngram-Apart,
}

module _ {V : Type 0} (timestamp : Row V → ℕ) where
  one_of :
      {A : Type 0} (test : Bool) (x y : A) → (out : A) × ((if test then ok x else ok y) ≡ ok out)
  one_of true x y = (x, refl)
  one_of false x y = (y, refl)

  -- A sorted window of the right length raises nothing.
  round_returns :
      (g : NGram) (prev : Option ℕ) (w : List (Row V))
      → is_sorted timestamp w ≡ true
      → length w ≡ ngram_length g
      → (out : List (List (ℤ × Row V)) × Option ℕ) × (round timestamp g prev w ≡ ok out)
  unfolding ngram_length
  round_returns g prev [] sorted long = absurd (omega arith)
  round_returns g prev (r ∷ rest) sorted long = elim (Bool-cases g.timestamp_overlap) [
    | inl over ↦ (_, round_overlapping timestamp g prev (r ∷ rest) over sorted long)
    | inr apart ↦
        let (out, e) =
          one_of (later timestamp prev (timestamp r) && near timestamp g.delta_threshold (r ∷ rest))
            (label g 0 (r ∷ rest) ∷ [], some (last_stamp timestamp r rest)) ([], prev) in
        (out, round_apart timestamp g prev r rest apart sorted long ∙ e)
  ]

  round_refuses :
      (g : NGram) (prev : Option ℕ) (w : List (Row V))
      → is_sorted timestamp w ≡ false
      → round timestamp g prev w ≡ raise not_implemented_error
  unfolding round
  round_refuses g prev w unsorted = ground arith

  walk_refuses :
      (g : NGram) (prev : Option ℕ) (ws : List (List (Row V)))
      → AllLong (ngram_length g) ws
      → all_sorted timestamp ws ≡ false
      → walk timestamp g prev ws ≡ raise not_implemented_error
  unfolding walk all_sorted
  walk_refuses g prev [] long unsorted = absurd (ground arith)
  walk_refuses g prev (w ∷ ws) long unsorted = elim (Bool-cases (is_sorted timestamp w)) [
    | inl first ↦
        let (out, runs) = round_returns g prev w first long.0 in
        let others : all_sorted timestamp ws ≡ false = ground arith in
        rw (runs, walk_refuses g out.1 ws long.1 others)
    | inr back ↦ rw (round_refuses g prev w back)
  ]

  unsorted_windows :
      (n : ℕ) (rows : List (Row V))
      → 2 ≤ n
      → n ≤ length rows
      → is_sorted timestamp rows ≡ false
      → all_sorted timestamp (windows n rows) ≡ false
  unsorted_windows zero rows two long back = absurd (omega arith)
  unsorted_windows (suc zero) rows two long back = absurd (omega arith)
  unsorted_windows (suc (suc n)) rows two long back =
      elim (Bool-cases (all_sorted timestamp (windows (suc (suc n)) rows))) [
        | inl sorted ↦
            let whole = all_sorted-is_sorted timestamp n rows long sorted in absurd (ground arith)
        | inr unsorted ↦ unsorted
      ]

  -- For NGrams of at least two time steps and data that is at least as long: the data is refused
  -- with a NotImplementedError exactly if it is not sorted by its timestamps, wherever it steps back.
  pub form_ngram-raises_iff :
      (g : NGram) (rows : List (Row V))
      → 2 ≤ ngram_length g
      → ngram_length g ≤ length rows
      → (form_ngram timestamp g rows ≡ raise not_implemented_error)
        ↔ (is_sorted timestamp rows ≡ false)
  form_ngram-raises_iff g rows two long = (
    λ raises. elim (Bool-cases (is_sorted timestamp rows)) [
      | inl sorted ↦ elim (Bool-cases g.timestamp_overlap) [
        | inl over ↦
            let runs = form_ngram_overlapping timestamp g rows over sorted in absurd (ground arith)
        | inr apart ↦
            let runs = (form_ngram-Apart timestamp g rows apart sorted).0 in absurd (ground arith)
      ]
      | inr back ↦ back
    ],
    λ back.
        form_ngram-walk timestamp g rows
        ∙ walk_refuses g none (windows (ngram_length g) rows)
            (windows-AllLong (ngram_length g) rows)
            (unsorted_windows (ngram_length g) rows two long back),
  )
