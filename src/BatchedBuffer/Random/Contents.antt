-- ===== src/BatchedBuffer/Random/Contents.antt =====
-- What a `BatchedRandomShufflingBuffer` holds, and what `retrieve` takes from it. The tensors are the
-- columns of an array of slots, which begins with the rows `all`.
use mathlib.Core.List.{Perm}
use mathlib.Core.List.Perm
use petastorm.Prelude.{
  Bool-cases, ℕ, ◌+◌, ◌-◌, ◌≤◌, ◌<◌, ◌≡◌, refl, ap, ◌∙◌, sym, min, true, Option, none, some, List,
  [], ◌∷◌, ◌++◌, map, length, length-take, length-drop, take, drop, take-append-drop, ok, arith,
  ◌⊎◌, inl, inr,
}
use petastorm.Tensors.{slice, gather, each}
use petastorm.Tensors.Randperm.{Randperm}
use petastorm.Tensors.Rows.{gather-map, gather-append, gather-slice}
use petastorm.Tensors.Permuted.{gather-Perm}
use petastorm.BatchedBuffer.Columns.{columns, cell_columns, read, each-columns, columns-some}
use petastorm.BatchedBuffer.Random.{
  BatchedRandomShufflingBuffer, init, finish, can_retrieve, retrieve, permutation, tensors_of,
}

-- The rows in the buffer, in the order in which they come out: all of them, or those at the indices
-- that are left.
abbrev pub InOrder : {R : Type 0} → Option (List ℕ) → ℕ → List R → List R → Type 0
InOrder none head all rows = (head ≡ 0) × (rows ≡ all)
InOrder (some indices) head all rows = (0 < head) × (gather all (drop head indices) ≡ ok rows)

module _ {A : Type 0} where
  pub retrieve_run :
      (rng : Randperm) (b : BatchedRandomShufflingBuffer A) (tensors out : List (List A)) (head : ℕ)
      (indices : List ℕ)
      → can_retrieve b ≡ true
      → b.items ≡ some tensors
      → permutation rng b ≡ (head, indices)
      → each (λ v. gather v (slice head (head + min b.batch_size b.size) indices)) tensors ≡ ok out
      → retrieve rng b
        ≡ ok (
          out,
          record b {
            random_indices = some indices;
            next_sample_head = head + min b.batch_size b.size;
            size = b.size - min b.batch_size b.size;
          },
        )
  unfolding retrieve tensors_of
  retrieve_run rng b tensors out head indices may stored drawn found =
      elim (Bool-cases b.done_adding) [
        | inl e ↦ ground (arith, may, stored, drawn, found, e)
        | inr e ↦ ground (arith, may, stored, drawn, found, e)
      ]

module _ {R A : Type 0} (blank : A) (p : R → A) (projs : List (R → A)) where
  abbrev pub array : List R → List (Option R) → List (List A)
  array all junk = cell_columns blank (p ∷ projs) (map some all ++ junk)

  pub record Holds (b : BatchedRandomShufflingBuffer A) (rows : List R) : Type 0 where
    pub all : List R
    pub junk : List (Option R)
    pub stored : (b.items ≡ some (array all junk)) ⊎ ((b.items ≡ none) × (all ≡ []))
    pub order : InOrder b.random_indices b.next_sample_head all rows
    pub fewer : length rows ≤ length all
    pub counted : b.size ≡ length rows

  pub init-Holds : (cap min_after extra n : ℕ) → Holds (init cap min_after extra n) []
  unfolding init
  init-Holds cap min_after extra n = record {
    all = [];
    junk = [];
    stored = inr (refl, refl);
    order = (refl, refl);
    fewer = omega arith;
    counted = refl;
  }

  pub finish-Holds :
      {b : BatchedRandomShufflingBuffer A} {rows : List R} → Holds b rows → Holds (finish b) rows
  unfolding finish
  finish-Holds h = record {
    all = h.all;
    junk = h.junk;
    stored = h.stored;
    order = h.order;
    fewer = h.fewer;
    counted = h.counted;
  }

  -- The rows in the order in which they will come out once there is a permutation.
  record Drawn (rng : Randperm) (b : BatchedRandomShufflingBuffer A) (all rows : List R)
      : Type 0 where
    head : ℕ
    indices : List ℕ
    zs : List R
    drawn : permutation rng b ≡ (head, indices)
    rest : gather all (drop head indices) ≡ ok zs
    same : Perm zs rows
    counted : length zs ≡ length rows

  draw :
      (rng : Randperm) (b : BatchedRandomShufflingBuffer A) (all rows : List R)
      (indices : Option (List ℕ))
      → b.random_indices ≡ indices
      → InOrder indices b.next_sample_head all rows
      → b.size ≡ length rows
      → Drawn rng b all rows
  unfolding permutation
  draw rng b all rows none e (start, whole) counted =
      let (zs, found, same, n) = gather-Perm all rng in
      record {
        head = 0;
        indices = rng.randperm b.size;
        zs = zs;
        drawn = rw e refl;
        rest = rw (counted, whole) found;
        same = rw whole same;
        counted = n ∙ ap length (sym whole);
      }
  draw rng b all rows (some indices) e (later, found) counted = record {
    head = b.next_sample_head;
    indices = indices;
    zs = rows;
    drawn = rw e refl;
    rest = found;
    same = Perm.refl rows;
    counted = refl;
  }

  sample :
      (all out : List R) (junk : List (Option R)) (indices : List ℕ)
      → gather all indices ≡ ok out
      → each (λ v. gather v indices) (array all junk) ≡ ok (columns (p ∷ projs) out)
  sample all out junk indices found =
      let cells =
        gather-append (map some all) junk indices (map some out)
          (gather-map some all indices out found) in
      each-columns (λ v. gather v indices) (map (read blank) (p ∷ projs)) (map some all ++ junk)
        (map some out) (λ q. gather-map q (map some all ++ junk) indices (map some out) cells)
      ∙ ap ok (columns-some blank (p ∷ projs) out)

  pub stored_pos :
      {b : BatchedRandomShufflingBuffer A} {rows : List R}
      → (h : Holds b rows) → 0 < length rows
      → b.items ≡ some (array h.all h.junk)
  stored_pos h pos = elim h.stored [
    | inl e ↦ e
    | inr (e, none_yet) ↦ absurd (omega (arith, h.fewer, ap length none_yet))
  ]

  -- Where the loader may retrieve, a batch of rows comes out, or what is left of it, for every
  -- permutation that is drawn: each row as often as the buffer held it, with all its columns, and the
  -- buffer keeps the others.
  pub retrieve-Holds :
      {b : BatchedRandomShufflingBuffer A} {rows : List R} (rng : Randperm)
      → Holds b rows
      → can_retrieve b ≡ true
      → 0 < b.batch_size
      → 0 < length rows
      → (out ys : List R) × (indices : List ℕ) × (head : ℕ) × (let b' = record b {
        random_indices = some indices;
        next_sample_head = head;
        size = length ys;
      } in
          (retrieve rng b ≡ ok (columns (p ∷ projs) out, b'))
          × Holds b' ys
          × Perm (out ++ ys) rows
          × (length out ≡ min b.batch_size (length rows))
          × (length out + length ys ≡ length rows))
  retrieve-Holds {b} {rows} rng h may full pos =
      let n = min b.batch_size b.size in
      let d = draw rng b h.all rows b.random_indices refl h.order h.counted in
      let (front, back) = gather-slice h.all d.zs d.indices d.head n d.rest in
      let left : b.size - n ≡ length (drop n d.zs) =
        omega (arith, h.counted, d.counted, length-drop n d.zs) in
      (
        take n d.zs,
        drop n d.zs,
        d.indices,
        d.head + n,
        (
          rw (← left) (
              retrieve_run rng b (array h.all h.junk) (columns (p ∷ projs) (take n d.zs)) d.head
                d.indices may (stored_pos h pos) d.drawn
                (sample h.all (take n d.zs) h.junk _ front)),
          record {
            all = h.all;
            junk = h.junk;
            stored = inl (stored_pos h pos);
            order = (omega (arith, full, pos, h.counted), back);
            fewer = omega (arith, h.fewer, d.counted, length-drop n d.zs);
            counted = refl;
          },
          rw (take-append-drop n d.zs) d.same,
          omega (arith, h.counted, d.counted, length-take n d.zs),
          omega (arith, h.counted, d.counted, length-take n d.zs, length-drop n d.zs),
        ),
      )
