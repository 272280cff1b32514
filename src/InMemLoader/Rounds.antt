-- ===== src/InMemLoader/Rounds.antt =====
-- One round of the loop of `_load_rows_into_mem`.
use Prim.Native.String.{String}
use petastorm.Prelude.{
  min, ℕ, ◌+◌, ◌-◌, ◌≤◌, ◌<◌, ◌≡◌, refl, ap, ◌∙◌, Bool, true, false, Option, some, List, [], ◌∷◌,
  ◌++◌, map, length, length-append, length-map, take, take_of_length-le, drop, leb, Result, ok,
  arith, Bool-cases, inl, inr, ◌||◌, if◌then◌else◌,
}
use petastorm.Tensors.{assign, each_item}
use petastorm.BatchedBuffer.Columns.{columns, first_length-columns}
use petastorm.DataLoader.{Sample, keys}
use petastorm.BatchedLoader.{tensors}
use petastorm.InMemLoader.{Memory, or_empty, or_keys, load_sample}
use petastorm.InMemLoader.Filling.{array, Stored, fill-taken, taken_rows, fits_to}

pub or_keys-same : (ks : List String) → or_keys ks ks ≡ ks
unfolding or_keys
or_keys-same [] = refl
or_keys-same (k ∷ ks) = refl

or_false : (b : Bool) → b || false ≡ b
or_false true = refl
or_false false = refl

-- The variables of the loop after the rows `rows`.
pub record Loaded {R A : Type 0} (blank : A) (p : R → A) (projs : List (R → A)) (cap : ℕ)
    (ks : List String) (m : Memory A) (rows : List R) : Type 0 where
  pub tensors : List (List A)
  pub made : m.buffer ≡ some tensors
  pub stored : Stored blank p projs cap tensors rows
  pub counted : m.n_rows ≡ min cap (length rows)
  pub full : m.buffer_full ≡ leb cap (length rows)
  pub named : m.keys ≡ ks

module _ {V R A : Type 0} (sanitize : Sample V → Result (Sample V))
    (transform_fn : List V → Result (List A)) (blank : A) (cap : ℕ) (p : R → A)
    (projs : List (R → A)) (ks : List String) where
  load_sample_run :
      (r sample : Sample V) (g : List R) (m : Memory A) (ts us : List (List A)) (k : ℕ)
      (full : Bool)
      → sanitize r ≡ ok sample
      → tensors transform_fn sample ≡ ok (columns (p ∷ projs) g)
      → or_empty sanitize transform_fn blank cap m.buffer (columns (p ∷ projs) g) ≡ ts
      → leb cap (m.n_rows + length g) ≡ full
      → (if full then cap else m.n_rows + length g) ≡ m.n_rows + k
      → (if full then cap - m.n_rows else length g) ≡ k
      → each_item (λ t v. assign m.n_rows (m.n_rows + k) t (take k v)) ts (columns (p ∷ projs) g)
        ≡ ok us
      → m.buffer_full ≡ false
      → load_sample sanitize transform_fn blank cap r m
        ≡ ok (record {
          n_rows = m.n_rows + k;
          buffer_full = full;
          buffer = some us;
          keys = or_keys m.keys (keys sample);
        })
  unfolding load_sample
  load_sample_run r sample g m ts us k full clean tabular made fits e f filled open_ =
      rw
        (
          clean,
          tabular,
          first_length-columns p projs g,
          made,
          fits,
          e,
          f,
          filled,
          open_,
          or_false full,
        )
        refl

  -- One round before the capacity is reached.
  pub load_sample-Loaded :
      (r sample : Sample V) (g rows : List R) (m : Memory A) (junk : List (Option R))
      → sanitize r ≡ ok sample
      → keys sample ≡ ks
      → tensors transform_fn sample ≡ ok (columns (p ∷ projs) g)
      → or_empty sanitize transform_fn blank cap m.buffer (columns (p ∷ projs) g)
        ≡ array blank p projs cap rows junk
      → length (map some rows ++ junk) ≡ cap
      → m.n_rows ≡ length rows
      → m.buffer_full ≡ false
      → or_keys m.keys ks ≡ ks
      → (m' : Memory A) × (load_sample sanitize transform_fn blank cap r m ≡ ok m')
        × Loaded blank p projs cap ks m' (rows ++ g)
  load_sample-Loaded r sample g rows m junk clean same_keys tabular made size counted open_ named =
      let n = m.n_rows in
      let total = length-append rows g in
      let below : length rows ≤ cap =
        omega
          (arith, size, length-append (map some rows) junk, length-map {B = Option R} some rows) in
      elim (Bool-cases (leb cap (n + length g))) [
        | inl full ↦
            let k = cap - n in
            let enough : cap ≤ n + length g = ground (arith, full) in
            let end_ : cap ≡ n + k = omega (arith, counted, below) in
            let filled =
              fill-taken blank p projs cap n k rows g junk counted (omega (arith, enough))
                (omega (arith, size, end_)) in
            let front : take cap (rows ++ g) ≡ rows ++ take k g =
              ap (λ c. take c (rows ++ g)) end_ ∙ taken_rows blank p projs cap n k rows g counted in
            (
              _,
              load_sample_run r sample g m _ _ k true clean tabular made full end_ refl filled
                  open_,
              record {
                tensors =
                    array blank p projs cap (rows ++ take k g)
                      (drop (n + k) (map some rows ++ junk));
                made = refl;
                stored =
                    fits_to blank p projs cap n k rows g junk counted (omega (arith, enough))
                      (omega (arith, end_)) size front;
                counted = omega (arith, end_, enough, counted, total);
                full = ground (arith, enough, counted, total);
                named = rw (same_keys, named) refl;
              },
            )
        | inr part ↦
            let k = length g in
            let less : n + length g < cap = ground (arith, part) in
            let filled =
              fill-taken blank p projs cap n k rows g junk counted (omega arith)
                (omega (arith, size, less)) in
            let whole = take_of_length-le k g (omega arith) in
            let front : take cap (rows ++ g) ≡ rows ++ take k g =
              rw whole (take_of_length-le cap (rows ++ g) (omega (arith, total, counted, less))) in
            (
              _,
              load_sample_run r sample g m _ _ k false clean tabular made part refl refl filled
                  open_,
              record {
                tensors =
                    array blank p projs cap (rows ++ take k g)
                      (drop (n + k) (map some rows ++ junk));
                made = refl;
                stored =
                    fits_to blank p projs cap n k rows g junk counted (omega arith)
                      (omega (arith, less)) size front;
                counted = omega (arith, less, counted, total);
                full = ground (arith, less, counted, total);
                named = rw (same_keys, named) refl;
              },
            )
      ]
