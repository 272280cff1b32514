-- ===== src/NGram/Chosen.antt =====
-- Which windows become NGrams.
use petastorm.Prelude.{
  ◌+◌, leb, ℕ, suc, ◌<◌, ◌≡◌, refl, ◌∙◌, Bool, true, false, not, ◌&&◌, Option, none, some, List, [],
  ◌∷◌, map, length, ltb, ◌==◌, if◌then◌else◌, ok, arith, Bool-cases, inl, inr, ltb→lt,
}
use petastorm.NGram.Keys.{ℤ}
use petastorm.NGram.{
  NGram, Row, ngram_length, is_sorted, ngram_pass_threshold, start_timestamp, end_timestamp,
  overlaps, appended, round, form_ngram, label,
}
use petastorm.NGram.Windows.{windows, walk, AllLong, windows-AllLong, form_ngram-walk}
use petastorm.NGram.Sorted.{all_sorted, all_sorted-windows}

module _ {V : Type 0} (timestamp : Row V → ℕ) where
  -- Each timestamp is at most `delta` after the one before.
  unfoldable pub near : ℕ → List (Row V) → Bool
  near delta [] = true
  near delta (r ∷ []) = true
  near delta (r ∷ s ∷ rest) = leb (timestamp s) (timestamp r + delta) && near delta (s ∷ rest)

  ngram_pass_threshold-near :
      (delta : ℕ) (w : List (Row V)) → ngram_pass_threshold timestamp delta w ≡ near delta w
  unfolding near ngram_pass_threshold
  ngram_pass_threshold-near delta [] = refl
  ngram_pass_threshold-near delta (r ∷ []) = refl
  ngram_pass_threshold-near delta (r ∷ s ∷ rest) =
      ground (arith, ngram_pass_threshold-near delta (s ∷ rest))

  -- The windows whose neighbours are near each other.
  unfoldable pub near_windows : ℕ → List (List (Row V)) → List (List (Row V))
  near_windows delta [] = []
  near_windows delta (w ∷ ws) =
      let others = near_windows delta ws in if near delta w then w ∷ others else others

  abbrev pub last_stamp : Row V → List (Row V) → ℕ
  last_stamp r [] = timestamp r
  last_stamp r (s ∷ rest) = last_stamp s rest

  unfoldable pub later : Option ℕ → ℕ → Bool
  later none start = true
  later (some end) start = ltb end start

  -- Those of them that start after the one before has ended, from the first one on.
  unfoldable pub apart_windows : ℕ → Option ℕ → List (List (Row V)) → List (List (Row V))
  apart_windows delta prev [] = []
  apart_windows delta prev ([] ∷ ws) = apart_windows delta prev ws
  apart_windows delta prev ((r ∷ rest) ∷ ws) =
      let with_it = apart_windows delta (some (last_stamp r rest)) ws in
      let without = apart_windows delta prev ws in
      if later prev (timestamp r) && near delta (r ∷ rest) then (r ∷ rest) ∷ with_it else without

  abbrev pub labels : NGram → List (List (Row V)) → List (List (ℤ × Row V))
  labels g = map (label g 0)

  same_length : (n m : ℕ) → n ≡ m → (n == m) ≡ true
  same_length n m e = ground arith

  overlaps_allowed :
      (g : NGram) (prev : Option ℕ) (w : List (Row V))
      → g.timestamp_overlap ≡ true
      → overlaps timestamp g prev w ≡ ok false
  unfolding overlaps
  overlaps_allowed g none w over = refl
  overlaps_allowed g (some end) w over = ground arith

  pub round_overlapping :
      (g : NGram) (prev : Option ℕ) (w : List (Row V))
      → g.timestamp_overlap ≡ true
      → is_sorted timestamp w ≡ true
      → length w ≡ ngram_length g
      → round timestamp g prev w
        ≡ ok (labels g (if near g.delta_threshold w then w ∷ [] else []), prev)
  unfolding round appended
  round_overlapping g prev w over sorted long = ground (
    arith,
    overlaps_allowed g prev w over,
    same_length _ _ long,
    ngram_pass_threshold-near g.delta_threshold w,
  )

  walk_overlapping :
      (g : NGram) (prev : Option ℕ) (ws : List (List (Row V)))
      → g.timestamp_overlap ≡ true
      → all_sorted timestamp ws ≡ true
      → AllLong (ngram_length g) ws
      → walk timestamp g prev ws ≡ ok (labels g (near_windows g.delta_threshold ws))
  unfolding walk all_sorted near_windows
  walk_overlapping g prev [] over sorted long = refl
  walk_overlapping g prev (w ∷ ws) over sorted long =
      let first : is_sorted timestamp w ≡ true = ground arith in
      let others : all_sorted timestamp ws ≡ true = ground arith in
      ground (
        arith,
        round_overlapping g prev w over first long.0,
        walk_overlapping g prev ws over others long.1,
      )

  end_timestamp-last :
      (r : Row V) (rest : List (Row V))
      → end_timestamp timestamp (r ∷ rest) ≡ ok (last_stamp r rest)
  unfolding end_timestamp
  end_timestamp-last r [] = refl
  end_timestamp-last r (s ∷ rest) = end_timestamp-last s rest

  pub overlaps_apart :
      (g : NGram) (prev : Option ℕ) (r : Row V) (rest : List (Row V))
      → g.timestamp_overlap ≡ false
      → overlaps timestamp g prev (r ∷ rest) ≡ ok (not (later prev (timestamp r)))
  unfolding overlaps start_timestamp later
  overlaps_apart g none r rest over = refl
  overlaps_apart g (some end) r rest over = ground arith

  pub round_apart :
      (g : NGram) (prev : Option ℕ) (r : Row V) (rest : List (Row V))
      → g.timestamp_overlap ≡ false
      → is_sorted timestamp (r ∷ rest) ≡ true
      → suc (length rest) ≡ ngram_length g
      → round timestamp g prev (r ∷ rest) ≡ (
          if later prev (timestamp r) && near g.delta_threshold (r ∷ rest)
          then ok (label g 0 (r ∷ rest) ∷ [], some (last_stamp r rest))
          else ok ([], prev))
  unfolding round appended
  round_apart g prev r rest over sorted long = ground (
    arith,
    overlaps_apart g prev r rest over,
    same_length _ _ long,
    end_timestamp-last r rest,
    ngram_pass_threshold-near g.delta_threshold (r ∷ rest),
  )

  walk_apart :
      (g : NGram) (prev : Option ℕ) (ws : List (List (Row V)))
      → g.timestamp_overlap ≡ false
      → all_sorted timestamp ws ≡ true
      → AllLong (ngram_length g) ws
      → walk timestamp g prev ws ≡ ok (labels g (apart_windows g.delta_threshold prev ws))
  unfolding walk all_sorted apart_windows ngram_length
  walk_apart g prev [] over sorted long = refl
  walk_apart g prev ([] ∷ ws) over sorted long = absurd (omega (arith, long.0))
  walk_apart g prev ((r ∷ rest) ∷ ws) over sorted long =
      let first : is_sorted timestamp (r ∷ rest) ≡ true = ground arith in
      let others : all_sorted timestamp ws ≡ true = ground arith in
      ground (
        arith,
        round_apart g prev r rest over first long.0,
        walk_apart g prev ws over others long.1,
        walk_apart g (some (last_stamp r rest)) ws over others long.1,
      )

  -- With overlaps allowed, the NGrams of sorted data are exactly its runs of `length` neighbouring
  -- rows in which each timestamp is within the threshold of the one before, in order; each is
  -- labelled with its time steps and keeps the fields of these.
  pub form_ngram_overlapping :
      (g : NGram) (rows : List (Row V))
      → g.timestamp_overlap ≡ true
      → is_sorted timestamp rows ≡ true
      → form_ngram timestamp g rows
        ≡ ok (labels g (near_windows g.delta_threshold (windows (ngram_length g) rows)))
  form_ngram_overlapping g rows over sorted =
      form_ngram-walk timestamp g rows
      ∙ walk_overlapping g none (windows (ngram_length g) rows) over
          (all_sorted-windows timestamp (ngram_length g) rows sorted)
          (windows-AllLong (ngram_length g) rows)

  -- Each window starts after the end of the one before.
  abbrev pub After : Option ℕ → ℕ → Type 0
  After none start = Unit
  After (some end) start = end < start

  abbrev pub Apart : Option ℕ → List (List (Row V)) → Type 0
  Apart prev [] = Unit
  Apart prev ([] ∷ ws) = Apart prev ws
  Apart prev ((r ∷ rest) ∷ ws) = After prev (timestamp r) × Apart (some (last_stamp r rest)) ws

  later-After : (prev : Option ℕ) (start : ℕ) → later prev start ≡ true → After prev start
  unfolding later
  later-After none start h = tt
  later-After (some end) start h = ltb→lt end start h

  apart_windows-Apart :
      (delta : ℕ) (prev : Option ℕ) (ws : List (List (Row V)))
      → Apart prev (apart_windows delta prev ws)
  unfolding apart_windows
  apart_windows-Apart delta prev [] = tt
  apart_windows-Apart delta prev ([] ∷ ws) = apart_windows-Apart delta prev ws
  apart_windows-Apart delta prev ((r ∷ rest) ∷ ws) =
      elim (Bool-cases (later prev (timestamp r) && near delta (r ∷ rest))) [
        | inl taken ↦
            let after : later prev (timestamp r) ≡ true = ground arith in
            rw taken (
              (
                later-After prev (timestamp r) after,
                apart_windows-Apart delta (some (last_stamp r rest)) ws,
              ))
        | inr left ↦ rw left (apart_windows-Apart delta prev ws)
      ]

  -- Without overlaps, the NGrams of sorted data are those runs that are taken from the first one on,
  -- each as soon as one starts after the end of the one taken before, so that no two of them share a
  -- timestamp.
  pub form_ngram-Apart :
      (g : NGram) (rows : List (Row V))
      → g.timestamp_overlap ≡ false
      → is_sorted timestamp rows ≡ true
      → (let taken = apart_windows g.delta_threshold none (windows (ngram_length g) rows) in
          (form_ngram timestamp g rows ≡ ok (labels g taken)) × Apart none taken)
  form_ngram-Apart g rows apart sorted = (
    form_ngram-walk timestamp g rows
        ∙ walk_apart g none (windows (ngram_length g) rows) apart
            (all_sorted-windows timestamp (ngram_length g) rows sorted)
            (windows-AllLong (ngram_length g) rows),
    apart_windows-Apart g.delta_threshold none (windows (ngram_length g) rows),
  )
