-- ===== src/BatchedBuffer/Random/Adding.antt =====
-- `add_many` of a `BatchedRandomShufflingBuffer`, stage by stage: the slots of the tensors begin with
-- the rows in the buffer, in their order.
use petastorm.Prelude.{
  length-drop, length-take, min, ℕ, zero, suc, ◌+◌, ◌-◌, ◌≤◌, ◌<◌, ◌≡◌, refl, ap, ◌∙◌, sym, true,
  false, Option, none, some, List, [], ◌∷◌, ◌++◌, map, map-append, append_assoc, length,
  length-append, length-map, length-replicate, take, drop, replicate, take-append, ltb, ok, arith,
  ◌⊎◌, inl, inr, Bool-cases,
}
use petastorm.Indexing.{get_item, set_slice}
use petastorm.Tensors.{assign, each, each_item}
use petastorm.Tensors.Rows.{gather-map, gather-append, assign-map, replicate-map, take-map}
use petastorm.BatchedBuffer.Columns.{
  columns, cell_columns, read, each-columns, each_item-columns, columns-some, first_length-columns,
  fresh_cells,
}
use petastorm.BatchedBuffer.Random.{
  BatchedRandomShufflingBuffer, grow, allocated, compress, resize, can_add, add_many,
}
use petastorm.BatchedBuffer.Random.Capacity.{grow_ends}
use petastorm.BatchedBuffer.Random.Contents.{InOrder, array, Holds}

module _ {R A : Type 0} (blank : A) (p : R → A) (projs : List (R → A)) where
  allocated-array :
      (c : ℕ) (items : Option (List (List A))) (all new : List R) (junk : List (Option R))
      → (items ≡ some (array blank p projs all junk)) ⊎ ((items ≡ none) × (all ≡ []))
      → (junk' : List (Option R)) × (allocated blank c items (columns (p ∷ projs) new)
          ≡ array blank p projs all junk')
  unfolding allocated
  allocated-array c items all new junk (inl e) = (junk, rw e refl)
  allocated-array c items all new junk (inr (e, none_yet)) =
      (replicate c none, rw (e, none_yet) (fresh_cells blank c (p ∷ projs) new))

  -- The rows that are left move to the front.
  compress-array :
      (head size : ℕ) (indices : Option (List ℕ)) (all rows : List R) (junk : List (Option R))
      → InOrder indices head all rows
      → size ≡ length rows
      → length rows ≤ length all
      → (junk' : List (Option R)) × (compress head size indices (array blank p projs all junk)
          ≡ ok (array blank p projs rows junk'))
  unfolding compress set_slice
  compress-array zero size none all rows junk (start, whole) e fewer = (junk, rw whole refl)
  compress-array (suc head) size none all rows junk (start, whole) e fewer = absurd (omega arith)
  compress-array zero size (some indices) all rows junk (later, found) e fewer =
      absurd (omega arith)
  compress-array (suc head) size (some indices) all rows junk (later, found) e fewer =
      let cells = map some all ++ junk in
      let left =
        gather-append (map some all) junk _ (map some rows) (gather-map some all _ rows found) in
      let fits : length (map some rows) ≡ min size (length cells) - 0 = omega (
        arith,
        fewer,
        e,
        length-map some rows,
        length-map some all,
        length-append (map some all) junk,
      ) in
      (
        drop size cells,
        each-columns _ (map (read blank) (p ∷ projs)) cells (map some rows ++ drop size cells) (λ q.
            rw (gather-map q cells _ (map some rows) left)
              (assign-map q 0 size cells (map some rows) fits)),
      )

  resize_slots :
      (q : R → A) (c size : ℕ) (cells : List (Option R))
      → size ≤ length cells
      → length cells < c
      → assign 0 size (replicate c blank) (take size (map (read blank q) cells))
        ≡ ok (map (read blank q) (take size cells ++ drop size (replicate c none)))
  unfolding set_slice
  resize_slots q c size cells fits short =
      let slots : List (Option R) = replicate c none in
      rw (take-map (read blank q) size cells, replicate-map (read blank q) c none)
        (assign-map (read blank q) 0 size slots (take size cells) (
          omega
            (arith, length-take size cells, length-replicate {A = Option R} c none, fits, short)))

  resize_cells :
      (c size : ℕ) (qs : List (R → A)) (cells : List (Option R))
      → size ≤ length cells
      → length cells < c
      → each (λ t. assign 0 size (replicate c blank) (take size t)) (cell_columns blank qs cells)
        ≡ ok (cell_columns blank qs (take size cells ++ drop size (replicate c none)))
  unfolding each columns
  resize_cells c size [] cells fits short = refl
  resize_cells c size (q ∷ qs) cells fits short =
      rw (resize_slots q c size cells fits short, resize_cells c size qs cells fits short)

  -- The tensors grow when they have to, and keep the rows.
  resize-array :
      (c size : ℕ) (rows : List R) (junk : List (Option R))
      → size ≡ length rows
      → size ≤ c
      → (junk' : List (Option R)) × (resize blank c size (array blank p projs rows junk)
          ≡ ok (array blank p projs rows junk'))
        × (c ≤ length (map some rows ++ junk'))
  unfolding resize columns get_item
  resize-array c size rows junk e room =
      let cells = map some rows ++ junk in
      let n : size ≤ length cells =
        omega (arith, e, length-map {B = Option R} some rows, length-append (map some rows) junk) in
      let slots : List (Option R) = replicate c none in
      let more = drop size slots in
      let front = take-append size (map some rows) junk (length-map some rows ∙ sym e) in
      let first = length-map (read blank p) cells in
      elim (Bool-cases (ltb (length cells) c)) [
        | inl short ↦ (
          more,
          rw (first, short)
              (resize_cells c size (p ∷ projs) cells n (ground (arith, short))
                ∙ ap (λ us. ok (cell_columns blank (p ∷ projs) (us ++ more))) front),
          omega (
            arith,
            room,
            e,
            length-map {B = Option R} some rows,
            length-append (map some rows) more,
            length-drop size slots,
            length-replicate {A = Option R} c none,
          ),
        )
        | inr enough ↦ (junk, rw (first, enough) refl, ground (arith, enough))
      ]

  -- The new rows are written behind those in the buffer.
  fill-array :
      (size : ℕ) (rows new : List R) (junk : List (Option R))
      → size ≡ length rows
      → size + length new ≤ length (map some rows ++ junk)
      → (junk' : List (Option R)) × (each_item
            (assign size (size + length new))
            (array blank p projs rows junk)
            (columns (p ∷ projs) new)
          ≡ ok (array blank p projs (rows ++ new) junk'))
  unfolding set_slice
  fill-array size rows new junk e room =
      let cells = map some rows ++ junk in
      let fits : length (map some new) ≡ min (size + length new) (length cells) - size =
        omega (arith, room, length-map {B = Option R} some new) in
      let front = take-append size (map some rows) junk (length-map some rows ∙ sym e) in
      let after : take size cells ++ (map some new ++ drop (size + length new) cells)
          ≡ map some (rows ++ new) ++ drop (size + length new) cells =
        rw (front, map-append, append_assoc) in
      (
        drop (size + length new) cells,
        rw (← columns-some blank (p ∷ projs) new) (
            each_item-columns _ (map (read blank) (p ∷ projs)) cells (map some new) _ (λ q.
              assign-map q size (size + length new) cells (map some new) fits
              ∙ ap (λ us. ok (map q us)) after)),
      )

  can_add-true :
      (b : BatchedRandomShufflingBuffer A)
      → can_add b ≡ true
      → (b.done_adding ≡ false) × (b.size < b.shuffling_queue_capacity)
  unfolding can_add
  can_add-true b may = elim (Bool-cases b.done_adding) [
    | inl e ↦ absurd (ground (arith, may, e))
    | inr e ↦ (e, ground (arith, may, e))
  ]

  add_many_run :
      (b : BatchedRandomShufflingBuffer A) (new : List R) (c : ℕ) (t1 t2 t3 t4 : List (List A))
      → can_add b ≡ true
      → b.size + length new ≤ b.shuffling_queue_capacity + b.extra_capacity
      → grow (suc (b.size + length new)) b.shuffling_queue_capacity (b.size + length new) ≡ ok c
      → allocated blank c b.items (columns (p ∷ projs) new) ≡ t1
      → compress b.next_sample_head b.size b.random_indices t1 ≡ ok t2
      → resize blank c b.size t2 ≡ ok t3
      → each_item (assign b.size (b.size + length new)) t3 (columns (p ∷ projs) new) ≡ ok t4
      → add_many blank b (columns (p ∷ projs) new)
        ≡ ok (record b {
          items = some t4;
          size = b.size + length new;
          random_indices = none;
          next_sample_head = 0;
        })
  unfolding add_many can_add
  add_many_run b new c t1 t2 t3 t4 may room grown made left resized filled =
      let capacity : ltb (b.shuffling_queue_capacity + b.extra_capacity) (b.size + length new)
          ≡ false =
        ground (arith, room) in
      let (adding, below) = can_add-true b may in
      let free : ltb b.size b.shuffling_queue_capacity ≡ true = ground (arith, below) in
      rw
        (
          adding,
          free,
          first_length-columns p projs new,
          capacity,
          grown,
          made,
          left,
          resized,
          filled,
        )
        refl

  -- Where the loader may add, rows up to the extra capacity are added, and none of the others is lost.
  pub add_many-Holds :
      {b : BatchedRandomShufflingBuffer A} {rows : List R} (new : List R)
      → Holds blank p projs b rows
      → can_add b ≡ true
      → length rows + length new ≤ b.shuffling_queue_capacity + b.extra_capacity
      → (tensors : List (List A)) × (let b' = record b {
        items = some tensors;
        size = b.size + length new;
        random_indices = none;
        next_sample_head = 0;
      } in
          (add_many blank b (columns (p ∷ projs) new) ≡ ok b')
          × Holds blank p projs b' (rows ++ new))
  add_many-Holds {b} {rows} new h may room =
      let (adding, below) = can_add-true b may in
      let pos : 0 < b.shuffling_queue_capacity = omega (arith, below) in
      let (c, grown, enough, bigger, bound) =
        grow_ends (b.size + length new) b.shuffling_queue_capacity (b.size + length new) pos
          (omega arith) in
      let (j1, made) = allocated-array c b.items h.all new h.junk h.stored in
      let (j2, left) =
        compress-array b.next_sample_head b.size b.random_indices h.all rows j1 h.order h.counted
          h.fewer in
      let (j3, resized, fits) = resize-array c b.size rows j2 h.counted (omega (arith, enough)) in
      let (j4, filled) = fill-array b.size rows new j3 h.counted (omega (arith, enough, fits)) in
      (
        array blank p projs (rows ++ new) j4,
        (
          add_many_run b new c _ _ _ _ may (omega (arith, room, h.counted)) grown made left resized
              filled,
          record {
            all = rows ++ new;
            junk = j4;
            stored = inl refl;
            order = (refl, refl);
            fewer = omega arith;
            counted = omega (arith, h.counted, length-append rows new);
          },
        ),
      )
