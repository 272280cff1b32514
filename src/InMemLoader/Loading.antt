-- ===== src/InMemLoader/Loading.antt =====
-- `_load_rows_into_mem`: the buffer has the first rows of the reader, as many as the capacity.
use Prim.Native.String.{String}
use petastorm.Prelude.{
  take-append_le, ℕ, ◌≤◌, ◌<◌, ◌≡◌, refl, ap, ◌∙◌, true, false, none, some, List, [], ◌∷◌, ◌++◌,
  append_assoc, append-nil, length, length-append, length-replicate, take, take_of_length-le,
  replicate, ltb, concat, Result, ok, arith, Bool-cases, inl, inr,
}
use petastorm.BatchedBuffer.Columns.{columns, fresh_cells}
use petastorm.DataLoader.{Sample, keys}
use petastorm.BatchedLoader.{tensors}
use petastorm.BatchedLoader.Passes.{Tabular}
use petastorm.InMemLoader.{
  Memory, empty_memory, or_empty, or_keys, load_sample, load_loop, truncate, load_rows_into_mem,
}
use petastorm.InMemLoader.Filling.{truncated, whole_buffer}
use petastorm.InMemLoader.Rounds.{Loaded, or_keys-same, load_sample-Loaded}

module _ {V R A : Type 0} (sanitize : Sample V → Result (Sample V))
    (transform_fn : List V → Result (List A)) (blank : A) (cap : ℕ) (p : R → A)
    (projs : List (R → A)) (ks : List String) where
  -- Rows behind the capacity do not matter.
  Loaded-more :
      (m : Memory A) (rows more : List R)
      → Loaded blank p projs cap ks m rows
      → m.buffer_full ≡ true
      → Loaded blank p projs cap ks m (rows ++ more)
  Loaded-more m rows more h full =
      let enough : cap ≤ length rows = ground (arith, full, h.full) in
      let total = length-append rows more in
      record {
        tensors = h.tensors;
        made = h.made;
        stored = rw (take-append_le cap rows more enough) h.stored;
        counted = omega (arith, h.counted, total, enough);
        full = ground (arith, full, total, enough);
        named = h.named;
      }

  load_loop_full :
      (samples : List (Sample V)) (m : Memory A)
      → m.buffer_full ≡ true
      → load_loop sanitize transform_fn blank cap samples m ≡ ok m
  unfolding load_loop
  load_loop_full [] m full = refl
  load_loop_full (r ∷ rest) m full = ground (arith, full)

  load_loop_next :
      (r : Sample V) (rest : List (Sample V)) (m m' : Memory A)
      → m.buffer_full ≡ false
      → load_sample sanitize transform_fn blank cap r m ≡ ok m'
      → load_loop sanitize transform_fn blank cap (r ∷ rest) m
        ≡ load_loop sanitize transform_fn blank cap rest m'
  unfolding load_loop
  load_loop_next r rest m m' open_ got = ground (arith, open_, got)

  or_keys-nil : (m : Memory A) → m.keys ≡ ks → or_keys m.keys ks ≡ ks
  unfolding or_keys
  or_keys-nil m e = rw e (or_keys-same ks)

  made_before :
      (m : Memory A) (ts items : List (List A))
      → m.buffer ≡ some ts
      → or_empty sanitize transform_fn blank cap m.buffer items ≡ ts
  unfolding or_empty
  made_before m ts items e = rw e refl

  load_loop-Loaded :
      (samples : List (Sample V)) (groups : List (List R)) (limit : ℕ) (m : Memory A)
      (rows : List R)
      → Tabular sanitize transform_fn (p ∷ projs) ks limit samples groups
      → Loaded blank p projs cap ks m rows
      → (m' : Memory A) × (load_loop sanitize transform_fn blank cap samples m ≡ ok m')
        × Loaded blank p projs cap ks m' (rows ++ concat groups)
  unfolding load_loop
  load_loop-Loaded [] [] limit m rows ready h = (m, refl, rw append-nil h)
  load_loop-Loaded [] (g ∷ groups) limit m rows ready h = absurd ready
  load_loop-Loaded (r ∷ rest) [] limit m rows ready h = absurd ready
  load_loop-Loaded (r ∷ rest) (g ∷ groups) limit m rows ready h = elim (Bool-cases m.buffer_full) [
    | inl full ↦
        (m, load_loop_full (r ∷ rest) m full, Loaded-more m rows (concat (g ∷ groups)) h full)
    | inr open_ ↦
        let (sample, clean, same_keys, tabular, fits) = ready.0 in
        let (junk, made, size) = h.stored in
        let few : length rows < cap = ground (arith, open_, h.full) in
        let all_kept = take_of_length-le cap rows (omega (arith, few)) in
        let (m', got, h') =
          load_sample-Loaded sanitize transform_fn blank cap p projs ks r sample g rows m junk clean
            same_keys tabular
            (rw (made_before m h.tensors (columns (p ∷ projs) g) h.made, made, all_kept) refl)
            (rw all_kept at size) (omega (arith, h.counted, few)) open_ (or_keys-nil m h.named) in
        let (m'', rest_runs, h'') = load_loop-Loaded rest groups limit m' (rows ++ g) ready.1 h' in
        (
          m'',
          load_loop_next r rest m m' open_ got ∙ rest_runs,
          rw (← append_assoc rows g (concat groups)) h'',
        )
  ]

  first_Loaded :
      (r sample : Sample V) (g : List R)
      → sanitize r ≡ ok sample
      → keys sample ≡ ks
      → tensors transform_fn sample ≡ ok (columns (p ∷ projs) g)
      → (m : Memory A) × (load_sample sanitize transform_fn blank cap r empty_memory ≡ ok m)
        × Loaded blank p projs cap ks m g
  unfolding or_empty or_keys
  first_Loaded r sample g clean same_keys tabular =
      load_sample-Loaded sanitize transform_fn blank cap p projs ks r sample g [] empty_memory
        (replicate cap none) clean same_keys tabular (fresh_cells blank cap (p ∷ projs) g)
        (length-replicate cap none) refl refl refl

  truncate-Loaded :
      (m : Memory A) (rows : List R)
      → Loaded blank p projs cap ks m rows
      → truncate sanitize transform_fn blank cap m ≡ ok (some (columns (p ∷ projs) (take cap rows)))
  unfolding truncate
  truncate-Loaded m rows h = elim (Bool-cases (ltb m.n_rows cap)) [
    | inl less ↦
        rw (less, h.made, truncated blank p projs cap m.n_rows h.tensors rows h.stored h.counted)
          refl
    | inr enough ↦
        rw (enough, h.made)
          (ap (λ ts. ok (some ts))
            (whole_buffer blank p projs cap h.tensors rows h.stored
              (ground (arith, enough, h.counted))))
  ]

  -- For at least one sample, all of them sanitized without an error, with the same keys and with the
  -- columns of rows as their tensors: the buffer has the columns of the first rows of the reader, as
  -- many as the capacity, or all of them where there are fewer.
  pub load_rows_into_mem-take :
      (r : Sample V) (rest : List (Sample V)) (groups : List (List R)) (limit : ℕ)
      → Tabular sanitize transform_fn (p ∷ projs) ks limit (r ∷ rest) groups
      → load_rows_into_mem sanitize transform_fn blank cap (r ∷ rest)
        ≡ ok (ks, some (columns (p ∷ projs) (take cap (concat groups))))
  unfolding load_rows_into_mem
  load_rows_into_mem-take r rest [] limit ready = absurd ready
  load_rows_into_mem-take r rest (g ∷ groups) limit ready =
      let (sample, clean, same_keys, tabular, fits) = ready.0 in
      let (m, got, h) = first_Loaded r sample g clean same_keys tabular in
      let (m', runs, h') = load_loop-Loaded rest groups limit m g ready.1 h in
      let loop = load_loop_next r rest empty_memory m refl got ∙ runs in
      rw (loop, truncate-Loaded m' (g ++ concat groups) h', h'.named)
