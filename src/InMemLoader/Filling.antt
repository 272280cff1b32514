-- ===== src/InMemLoader/Filling.antt =====
-- The tensors of `_load_rows_into_mem`: preallocated, and filled with the rows of one sample after the
-- other.
use petastorm.Prelude.{
  min, ℕ, ◌+◌, ◌-◌, ◌≤◌, ◌≡◌, refl, ap, ◌∙◌, sym, Option, some, List, [], ◌∷◌, ◌++◌, map,
  map-append, append_assoc, append-nil, length, length-append, length-map, length-take, length-drop,
  take, take-append, take_add, drop-append, drop, ok, arith,
}
use petastorm.Indexing.{set_slice}
use petastorm.Tensors.{assign, each_item}
use petastorm.Tensors.Rows.{assign-map, take-map}
use petastorm.Tensors.Permuted.{no_rows}
use petastorm.BatchedBuffer.Columns.{
  columns, cell_columns, read, each_item-columns, map-columns, columns-some,
}
use petastorm.BatchedLoader.{tensors}

module _ {R A : Type 0} (blank : A) (p : R → A) (projs : List (R → A)) (cap : ℕ) where
  abbrev pub array : List R → List (Option R) → List (List A)
  array all junk = cell_columns blank (p ∷ projs) (map some all ++ junk)

  -- The tensors hold the rows that were read, as far as the capacity reaches, and have its size.
  abbrev pub Stored : List (List A) → List R → Type 0
  Stored tensors rows =
      (junk : List (Option R)) × (tensors ≡ array (take cap rows) junk)
      × (length (map some (take cap rows) ++ junk) ≡ cap)

  pub fill-taken :
      (n k : ℕ) (rows g : List R) (junk : List (Option R))
      → n ≡ length rows
      → k ≤ length g
      → n + k ≤ length (map some rows ++ junk)
      → each_item (λ t v. assign n (n + k) t (take k v)) (array rows junk) (columns (p ∷ projs) g)
        ≡ ok (array (rows ++ take k g) (drop (n + k) (map some rows ++ junk)))
  unfolding set_slice
  fill-taken n k rows g junk e fits room =
      let cells = map some rows ++ junk in
      let new = take k (map some g) in
      let size : length new ≡ min (n + k) (length cells) - n =
        omega (arith, room, fits, length-take k (map some g), length-map {B = Option R} some g) in
      let after : take n cells ++ (new ++ drop (n + k) cells)
          ≡ map some (rows ++ take k g) ++ drop (n + k) cells =
        rw
          (
            take-append n (map some rows) junk (length-map some rows ∙ sym e),
            map-append,
            append_assoc,
            take-map some k g,
          )
          refl in
      rw (← columns-some blank (p ∷ projs) g) (
        each_item-columns _ (map (read blank) (p ∷ projs)) cells (map some g) _ (λ q.
          rw (take-map q k (map some g)) (assign-map q n (n + k) cells new size)
          ∙ ap (λ us. ok (map q us)) after))

  pub taken_rows :
      (n k : ℕ) (rows g : List R) → n ≡ length rows → take (n + k) (rows ++ g) ≡ rows ++ take k g
  taken_rows n k rows g e =
      rw
        (
          take_add n k (rows ++ g),
          take-append n rows g (sym e),
          drop-append n 0 rows g (omega (arith, e)),
        )
        refl

  -- Where as many rows are left as the capacity asks for.
  pub fits_to :
      (n k : ℕ) (rows g : List R) (junk : List (Option R))
      → n ≡ length rows
      → k ≤ length g
      → n + k ≤ cap
      → length (map some rows ++ junk) ≡ cap
      → take cap (rows ++ g) ≡ rows ++ take k g
      → Stored (array (rows ++ take k g) (drop (n + k) (map some rows ++ junk))) (rows ++ g)
  fits_to n k rows g junk e fits room size front = (
    drop (n + k) (map some rows ++ junk),
    rw front refl,
    rw front (
        omega (
          arith,
          e,
          fits,
          room,
          size,
          length-append (map some (rows ++ take k g)) (drop (n + k) (map some rows ++ junk)),
          length-map {B = Option R} some (rows ++ take k g),
          length-append rows (take k g),
          length-take k g,
          length-drop (n + k) (map some rows ++ junk),
        )),
  )

  -- What is left of the buffer when the rows that are not filled are cut off.
  pub truncated :
      (n : ℕ) (tensors : List (List A)) (rows : List R)
      → Stored tensors rows
      → n ≡ min cap (length rows)
      → map (take n) tensors ≡ columns (p ∷ projs) (take cap rows)
  truncated n tensors rows (junk, made, size) e =
      let filled = length-map {B = Option R} some (take cap rows) in
      rw made (
        map-columns (take n) (map (read blank) (p ∷ projs)) (map some (take cap rows) ++ junk)
          (map some (take cap rows))
          (λ q.
            rw
              (
                take-map q n (map some (take cap rows) ++ junk),
                take-append n (map some (take cap rows)) junk
                    (omega (arith, filled, e, length-take cap rows)),
              )
              refl)
        ∙ columns-some blank (p ∷ projs) (take cap rows))

  -- A buffer that is full has nothing to cut off.
  pub whole_buffer :
      (tensors : List (List A)) (rows : List R)
      → Stored tensors rows
      → cap ≤ length rows
      → tensors ≡ columns (p ∷ projs) (take cap rows)
  whole_buffer tensors rows (junk, made, size) enough =
      let filled = length-map {B = Option R} some (take cap rows) in
      let none_left : junk ≡ [] = no_rows junk (
        omega (
          arith,
          size,
          filled,
          enough,
          length-append (map some (take cap rows)) junk,
          length-take cap rows,
        )) in
      made ∙ rw (none_left, append-nil) (columns-some blank (p ∷ projs) (take cap rows))
