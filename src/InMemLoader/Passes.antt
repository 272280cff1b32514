-- ===== src/InMemLoader/Passes.antt =====
-- `InMemBatchedDataLoader` from its construction on.
use Prim.Native.String.{String}
use petastorm.Prelude.{
  ℕ, ◌<◌, ◌≡◌, refl, ◌∙◌, Bool, true, false, some, List, ◌∷◌, map, length, take, concat, Result, ok,
  raise, runtime_error, arith,
}
use petastorm.Tensors.Randperm.{Randperm}
use petastorm.BatchedBuffer.Columns.{columns}
use petastorm.NGram.{range_from}
use petastorm.Tensors.Permuted.{length-range_from}
use petastorm.DataLoader.{Row, Sample}
use petastorm.BatchedLoader.Loaders.{all_dicts}
use petastorm.BatchedLoader.Passes.{Tabular}
use petastorm.InMemLoader.{InMemBatchedDataLoader, init, iter, run_epochs}
use petastorm.InMemLoader.Loading.{load_rows_into_mem-take}
use petastorm.InMemLoader.Epochs.{AllDrawn, run_epochs-Drawn}

module _ {V R A : Type 0} (rng : ℕ → Randperm) (sanitize : Sample V → Result (Sample V))
    (transform_fn : List V → Result (List A)) (blank : A) (p : R → A) (projs : List (R → A))
    (ks : List String) where
  iter_first :
      (d : InMemBatchedDataLoader A) (out : List (Row (List A)))
      → d.in_iter ≡ false
      → run_epochs rng d (range_from 0 d.num_epochs) ≡ ok out
      → iter rng d ≡ (record d { in_iter = true }, ok out)
  unfolding iter
  iter_first d out e runs = ground (arith, e, runs)

  iter_again :
      (d : InMemBatchedDataLoader A) → d.in_iter ≡ true → (iter rng d).1 ≡ raise runtime_error
  unfolding iter
  iter_again d e = ground arith

  -- For a batch size that is not 0 and at least one sample, all of them sanitized without an error,
  -- with the same keys and with the columns of rows as their tensors: the loader is made, and its
  -- iteration yields as many epochs as are asked for. Every epoch has the first rows of the reader,
  -- as many as the capacity, in batches of `batch_size` and a last smaller one: in the reader's order,
  -- or with `shuffle` in some order, each as often as it was read. A second iteration raises a
  -- RuntimeError.
  pub iter-all_epochs :
      (r : Sample V) (rest : List (Sample V)) (groups : List (List R)) (limit : ℕ)
      (batch_size num_epochs seed cap : ℕ) (shuffle : Bool)
      → 0 < batch_size
      → Tabular sanitize transform_fn (p ∷ projs) ks limit (r ∷ rest) groups
      → (d : InMemBatchedDataLoader A) × (init sanitize transform_fn blank batch_size num_epochs
            seed cap shuffle
            (r ∷ rest)
          ≡ ok d)
        × (outs : List (List R)) × ((iter rng d).1
            ≡ ok (concat (map (all_dicts (p ∷ projs) ks batch_size) outs)))
        × AllDrawn rng p projs shuffle outs (take cap (concat groups))
        × (length outs ≡ num_epochs)
        × ((iter rng (iter rng d).0).1 ≡ raise runtime_error)
  unfolding init
  iter-all_epochs r rest groups limit batch_size num_epochs seed cap shuffle pos ready =
      let rows = take cap (concat groups) in
      let d : InMemBatchedDataLoader A = record {
        batch_size = batch_size;
        num_epochs = num_epochs;
        seed = seed;
        shuffle = shuffle;
        in_iter = false;
        keys = ks;
        buffer = some (columns (p ∷ projs) rows);
      } in
      let loaded =
        load_rows_into_mem-take sanitize transform_fn blank cap p projs ks r rest groups limit
          ready in
      let (outs, runs, drawn, n) =
        run_epochs-Drawn rng p projs d (range_from 0 num_epochs) rows refl pos in
      let first = iter_first d _ refl runs in
      (
        d,
        rw loaded refl,
        outs,
        rw first refl,
        drawn,
        n ∙ length-range_from 0 num_epochs,
        iter_again (iter rng d).0 (rw first refl),
      )
