-- ===== src/InMemLoader/Epochs.antt =====
-- `InMemBatchedDataLoader`: what the epochs yield from the rows in memory.
use mathlib.Core.List.{Perm}
use petastorm.Prelude.{
  ℕ, zero, suc, ◌+◌, ◌-◌, ◌≤◌, ◌<◌, ◌≡◌, refl, ap, ◌∙◌, sym, Bool, true, false, some, List, [], ◌∷◌,
  map, length, length-take, length-drop, take, drop, concat, ◌==◌, if◌then◌else◌, ok, arith,
}
use petastorm.Tensors.{slice, gather}
use petastorm.Tensors.Randperm.{Randperm}
use petastorm.Tensors.Rows.{gather-map, gather-slice, length-gather}
use petastorm.Tensors.Permuted.{gather-Perm, gather_range}
use petastorm.BatchedBuffer.Columns.{columns, each-columns, first_length, first_length-columns}
use petastorm.NGram.{range_from}
use petastorm.DataLoader.{Row, zip_keys}
use petastorm.DataLoader.Chunks.{chunk, left_batch}
use petastorm.BatchedLoader.Batches.{all_chunks-cons}
use petastorm.BatchedLoader.Loaders.{all_dicts}
use petastorm.InMemLoader.{
  InMemBatchedDataLoader, batch_loop, run_epoch, run_epochs, loaded, indices_of,
}

module _ {R A : Type 0} (rng : ℕ → Randperm) (p : R → A) (projs : List (R → A)) where
  end_of_epoch :
      (d : InMemBatchedDataLoader A) (rows : List R) (indices : List ℕ) (fuel i : ℕ)
      → length indices ≤ i
      → batch_loop rng d (columns (p ∷ projs) rows) indices (suc fuel) i 0 ≡ ok ([], 0)
  unfolding batch_loop
  end_of_epoch d rows indices fuel i e = ground arith

  next_batch :
      (d : InMemBatchedDataLoader A) (rows out : List R) (indices : List ℕ) (fuel i size left : ℕ)
      (rest : List (Row (List A)))
      → i < length indices
      → gather rows (slice i (i + d.batch_size) indices) ≡ ok out
      → batch_loop rng d
          (columns (p ∷ projs) rows)
          indices
          fuel
          (i + d.batch_size)
          (size - length out)
        ≡ ok (rest, left)
      → batch_loop rng d (columns (p ∷ projs) rows) indices (suc fuel) i size
        ≡ ok (zip_keys d.keys (columns (p ∷ projs) out) ∷ rest, left)
  unfolding batch_loop
  next_batch d rows out indices fuel i size left rest less found more =
      let sample =
        each-columns (λ v. gather v (slice i (i + d.batch_size) indices)) (p ∷ projs) rows out
          (λ q. gather-map q rows _ out found) in
      ground (arith, less, sample, first_length-columns p projs out, more)

  -- From a position on, the rest of the rows falls into batches.
  batch_loop-all_dicts :
      (d : InMemBatchedDataLoader A) (rows zs : List R) (indices : List ℕ) (fuel i : ℕ)
      → 0 < d.batch_size
      → gather rows (drop i indices) ≡ ok zs
      → length zs < fuel
      → batch_loop rng d (columns (p ∷ projs) rows) indices fuel i (length zs)
        ≡ ok (all_dicts (p ∷ projs) d.keys d.batch_size zs, 0)
  unfolding chunk left_batch
  batch_loop-all_dicts d rows zs indices zero i pos found less = absurd (omega arith)
  batch_loop-all_dicts d rows [] indices (suc fuel) i pos found less =
      end_of_epoch d rows indices fuel i
        (omega (arith, length-gather rows _ [] found, length-drop i indices))
  batch_loop-all_dicts d rows (z ∷ zs) indices (suc fuel) i pos found less =
      let n = d.batch_size in
      let (front, back) = gather-slice rows (z ∷ zs) indices i n found in
      let inside : i < length indices =
        omega (arith, length-gather rows _ (z ∷ zs) found, length-drop i indices) in
      let size : suc (length zs) - length (take n (z ∷ zs)) ≡ length (drop n (z ∷ zs)) =
        omega (arith, length-take n (z ∷ zs), length-drop n (z ∷ zs)) in
      let more =
        batch_loop-all_dicts d rows (drop n (z ∷ zs)) indices fuel (i + n) pos back
          (omega (arith, pos, less, length-drop n (z ∷ zs))) in
      next_batch d rows (take n (z ∷ zs)) indices fuel i (length (z ∷ zs)) 0 _ inside front
        (rw size more)
      ∙ ap (λ bs. ok (map (λ batch. zip_keys d.keys (columns (p ∷ projs) batch)) bs, 0))
          (sym (all_chunks-cons n (z ∷ zs) pos (omega arith)))

  -- The indices of an epoch give all rows, in some order or, without shuffling, in theirs.
  abbrev Drawn : Bool → List R → List R → Type 0
  Drawn true out rows = Perm out rows
  Drawn false out rows = out ≡ rows

  indices_of-Drawn :
      (d : InMemBatchedDataLoader A) (epoch : ℕ) (rows : List R)
      → (out : List R) × (gather rows (indices_of rng d epoch (length rows)) ≡ ok out)
        × Drawn d.shuffle out rows
        × (length out ≡ length rows)
  unfolding indices_of
  indices_of-Drawn d epoch rows =
      elim d.shuffle
        as (λ b.
          (out : List R) × (gather rows (
              if b
              then (rng (d.seed + epoch)).randperm (length rows)
              else range_from 0 (length rows))
            ≡ ok out)
          × Drawn b out rows
          × (length out ≡ length rows)) [
            | true ↦ gather-Perm rows (rng (d.seed + epoch))
            | false ↦ (rows, gather_range rows, refl, refl)
          ]

  run_epoch_run :
      (d : InMemBatchedDataLoader A) (epoch size : ℕ) (tensors : List (List A))
      (out : List (Row (List A)))
      → loaded rng d ≡ ok tensors
      → first_length tensors ≡ ok size
      → 0 < d.batch_size
      → batch_loop rng d tensors
          (indices_of rng d epoch size)
          (length (indices_of rng d epoch size) + 1)
          0
          size
        ≡ ok (out, 0)
      → run_epoch rng d epoch ≡ ok out
  unfolding run_epoch
  run_epoch_run d epoch size tensors out stored counted pos whole =
      let step : (d.batch_size == 0) ≡ false = ground (arith, pos) in
      rw (stored, counted, step, whole) refl

  loaded-some :
      (d : InMemBatchedDataLoader A) (tensors : List (List A))
      → d.buffer ≡ some tensors
      → loaded rng d ≡ ok tensors
  unfolding loaded
  loaded-some d tensors e = rw e refl

  run_epoch-Drawn :
      (d : InMemBatchedDataLoader A) (epoch : ℕ) (rows : List R)
      → d.buffer ≡ some (columns (p ∷ projs) rows)
      → 0 < d.batch_size
      → (out : List R) × (run_epoch rng d epoch
          ≡ ok (all_dicts (p ∷ projs) d.keys d.batch_size out))
        × Drawn d.shuffle out rows
  run_epoch-Drawn d epoch rows stored pos =
      let (out, found, drawn, size) = indices_of-Drawn d epoch rows in
      let indices = indices_of rng d epoch (length rows) in
      let whole =
        batch_loop-all_dicts d rows out indices (length indices + 1) 0 pos found
          (omega (arith, length-gather rows indices out found)) in
      (
        out,
        run_epoch_run d epoch (length rows) (columns (p ∷ projs) rows) _ (loaded-some d _ stored)
            (first_length-columns p projs rows) pos (rw size at whole),
        drawn,
      )

  -- Every epoch yields the rows `rows`, in its own order or, without shuffling, in theirs.
  abbrev pub AllDrawn : Bool → List (List R) → List R → Type 0
  AllDrawn shuffle [] rows = Unit
  AllDrawn shuffle (out ∷ outs) rows = Drawn shuffle out rows × AllDrawn shuffle outs rows

  abbrev pub epoch_dicts : InMemBatchedDataLoader A → List (List R) → List (Row (List A))
  epoch_dicts d outs = concat (map (all_dicts (p ∷ projs) d.keys d.batch_size) outs)

  pub run_epochs-Drawn :
      (d : InMemBatchedDataLoader A) (epochs : List ℕ) (rows : List R)
      → d.buffer ≡ some (columns (p ∷ projs) rows)
      → 0 < d.batch_size
      → (outs : List (List R)) × (run_epochs rng d epochs ≡ ok (epoch_dicts d outs))
        × AllDrawn d.shuffle outs rows
        × (length outs ≡ length epochs)
  unfolding run_epochs
  run_epochs-Drawn d [] rows stored pos = ([], refl, tt, refl)
  run_epochs-Drawn d (epoch ∷ epochs) rows stored pos =
      let (out, runs, drawn) = run_epoch-Drawn d epoch rows stored pos in
      let (outs, more, all_drawn, n) = run_epochs-Drawn d epochs rows stored pos in
      (out ∷ outs, rw (runs, more) refl, (drawn, all_drawn), ap suc n)
