-- ===== src/Reader/Epochs.antt =====
-- The work that a reader hands out, and starting over.
use petastorm.Prelude.{
  ℕ, zero, suc, ◌+◌, ◌≡◌, ◌↔◌, ◌⊎◌, refl, ap, false, Option, some, List, [], ◌∷◌, ◌++◌, map,
  map-append, ok, raise, not_implemented_error, arith,
}
use petastorm.NGram.{range_from}
use petastorm.Ventilator as Ventilator
use petastorm.Ventilator.{ConcurrentVentilator, Thread, Shuffle, start, completed}
use petastorm.Ventilator.Steps.{Reach}
use petastorm.Ventilator.Invariant.{passes}
use petastorm.Ventilator.Order.{every_iteration}
use petastorm.Reader.{Predicate, WorkItem, Reader, items_to_ventilate, create_ventilator, reset}

-- Every row group with each of its parts.
unfoldable pub parts : List ℕ → ℕ → List (ℕ × ℕ)
parts [] n = []
parts (piece ∷ pieces) n = map (λ k. (piece, k)) (range_from 0 n) ++ parts pieces n

module _ {A B : Type 0} where
  map-passes : (f : A → B) (n : ℕ) (xs : List A) → map f (passes n xs) ≡ passes n (map f xs)
  unfolding passes
  map-passes f zero xs = refl
  map-passes f (suc n) xs = rw (map-append, map-passes f n xs)

module _ {V : Type 0} where
  abbrev pub part_of : WorkItem V → ℕ × ℕ
  part_of item = (item.piece_index, item.shuffle_row_drop_partition.0)

  part_numbers :
      (i partitions k m : ℕ) (predicate : Option (Predicate V))
      → map part_of (
          map
            (λ j. record {
              piece_index = i;
              worker_predicate = predicate;
              shuffle_row_drop_partition = (j, partitions);
            })
            (range_from k m))
        ≡ map (λ j. (i, j)) (range_from k m)
  unfolding range_from
  part_numbers i partitions k zero predicate = refl
  part_numbers i partitions k (suc m) predicate =
      ap (◌∷◌ (i, k)) (part_numbers i partitions (k + 1) m predicate)

  -- The work items are the parts of the row groups.
  items_to_ventilate-parts :
      (indexes : List ℕ) (n : ℕ) (predicate : Option (Predicate V))
      → map part_of (items_to_ventilate indexes n predicate) ≡ parts indexes n
  unfolding items_to_ventilate parts
  items_to_ventilate-parts [] n predicate = refl
  items_to_ventilate-parts (i ∷ indexes) n predicate =
      rw (map-append, part_numbers i n 0 n predicate, items_to_ventilate-parts indexes n predicate)

  -- A reader that does not shuffle its row groups: once its ventilator is done with `n` epochs, the
  -- workers were given every part of every row group once in each epoch, in the order of the row
  -- groups, whatever was processed in between.
  pub every_epoch :
      (indexes : List ℕ) (partitions n max_size : ℕ) (predicate : Option (Predicate V))
      (seed : Option ℕ) (s : Shuffle (WorkItem V)) (v w : ConcurrentVentilator (WorkItem V))
      → create_ventilator indexes false partitions (some n) predicate max_size seed ≡ ok v
      → Reach (start s v) w
      → w.thread ≡ Thread.returned
      → w.stop_requested ≡ false
      → map part_of w.ventilated ≡ passes n (parts indexes partitions)
  unfolding create_ventilator Ventilator.init start
  every_epoch indexes partitions n max_size predicate seed s v w made r back going =
      let items = items_to_ventilate indexes partitions predicate in
      let all = every_iteration items n false seed (some max_size) v w s made r back going in
      let order : (start s v).items_to_ventilate ≡ items = ground arith in
      rw (
        all,
        order,
        map-passes part_of n items,
        items_to_ventilate-parts indexes partitions predicate,
      )

  -- `reset` is refused exactly while rows are left to read or the ventilator is at work; otherwise
  -- the reader has all its epochs before it again, and it is not at its last row.
  pub reset_all :
      (s : Shuffle (WorkItem V)) (r : Reader V)
      → (((reset s r).1 ≡ raise not_implemented_error)
          ↔ ((r.last_row_consumed ≡ false) ⊎ (completed r.ventilator ≡ false)))
        × (((reset s r).1 ≡ ok tt)
            → ((reset s r).0.last_row_consumed ≡ false)
              × ((reset s r).0.ventilator.iterations_remaining ≡ r.ventilator.iterations))
  unfolding reset Ventilator.reset start
  reset_all s r = ((λ h. ground arith, λ h. ground arith), λ h. (ground arith, ground arith))
