-- ===== src/BatchedBuffer/Noop.antt =====
-- `BatchedNoopShufflingBuffer`: the rows in their order, from `batch_start_idx` on.
use petastorm.Prelude.{
  take-append-drop, length-take, ℕ, ◌+◌, ◌-◌, ◌<◌, ◌≡◌, refl, ap, ◌∙◌, min, Bool, true, false, List,
  [], ◌∷◌, ◌++◌, map, map-append, length, length-append, length-drop, take, drop, leb, ltb,
  if◌then◌else◌, Result, ok, ◌>>=◌, arith, drop-append, append_assoc, ◌⊎◌, inl, inr,
}
use petastorm.Tensors.{slice, each_item}
use petastorm.Tensors.Rows.{take-map, drop-map}
use petastorm.BatchedBuffer.Columns.{
  first_length, columns, first_length-columns, each_item-columns, map-columns,
}

pub record BatchedNoopShufflingBuffer (A : Type 0) : Type 0 where
  pub batch_size : ℕ
  pub size : ℕ
  pub buffer : List (List A)
  pub done_adding : Bool
  pub batch_start_idx : ℕ

module _ {A : Type 0} where
  unfoldable pub init : ℕ → BatchedNoopShufflingBuffer A
  init batch_size = record {
    batch_size = batch_size;
    size = 0;
    buffer = [];
    done_adding = false;
    batch_start_idx = 0;
  }

  -- The leftover of the buffer and the new items, column by column.
  unfoldable pub merge : ℕ → List (List A) → List (List A) → Result (List (List A))
  merge start [] items = ok items
  merge start (t ∷ ts) items = each_item (λ u v. ok (drop start u ++ v)) (t ∷ ts) items

  unfoldable pub add_many :
      BatchedNoopShufflingBuffer A → List (List A) → Result (BatchedNoopShufflingBuffer A)
  unfolding merge
  add_many b items = do
    new ← first_length items
    buffer ← merge b.batch_start_idx b.buffer items
    ok (record b { size = b.size + new; buffer = buffer; batch_start_idx = 0 })

  unfoldable pub retrieve :
      BatchedNoopShufflingBuffer A → List (List A) × BatchedNoopShufflingBuffer A
  retrieve b =
      let cur_batch_size = min b.size b.batch_size in
      (
        map (slice b.batch_start_idx (b.batch_start_idx + cur_batch_size)) b.buffer,
        record b {
          batch_start_idx = b.batch_start_idx + cur_batch_size;
          size = b.size - cur_batch_size;
        },
      )

  unfoldable pub can_retrieve : BatchedNoopShufflingBuffer A → Bool
  can_retrieve b = if b.done_adding then ltb 0 b.size else leb b.batch_size b.size

  unfoldable pub can_add : BatchedNoopShufflingBuffer A → Bool
  can_add b = true

  unfoldable pub finish : BatchedNoopShufflingBuffer A → BatchedNoopShufflingBuffer A
  finish b = record b { done_adding = true }

module _ {R A : Type 0} (p : R → A) (projs : List (R → A)) where
  -- The buffer has the columns of the rows `gone`, which were retrieved, and then `rows`; or it is
  -- new.
  pub record Holds (b : BatchedNoopShufflingBuffer A) (rows : List R) : Type 0 where
    pub gone : List R
    pub buffered : (b.buffer ≡ columns (p ∷ projs) (gone ++ rows)) ⊎ ((b.buffer ≡ []) × (rows ≡ []))
    pub started : b.batch_start_idx ≡ length gone
    pub counted : b.size ≡ length rows

  pub init-Holds : (n : ℕ) → Holds (init n) []
  unfolding init
  init-Holds n = record { gone = []; buffered = inr (refl, refl); started = refl; counted = refl }

  pub finish-Holds :
      {b : BatchedNoopShufflingBuffer A} {rows : List R} → Holds b rows → Holds (finish b) rows
  unfolding finish
  finish-Holds h = record {
    gone = h.gone;
    buffered = h.buffered;
    started = h.started;
    counted = h.counted;
  }

  merge_new : (start : ℕ) (items : List (List A)) → merge start [] items ≡ ok items
  unfolding merge
  merge_new start items = refl

  merge-columns :
      (start : ℕ) (gone rows new : List R)
      → start ≡ length gone
      → merge start (columns (p ∷ projs) (gone ++ rows)) (columns (p ∷ projs) new)
        ≡ ok (columns (p ∷ projs) (rows ++ new))
  unfolding merge columns
  merge-columns start gone rows new e =
      each_item-columns (λ u v. ok (drop start u ++ v)) (p ∷ projs) (gone ++ rows) new (rows ++ new)
        (λ q. rw (drop-map q, drop-append start 0 gone rows (omega arith), map-append))

  merge-Holds :
      {b : BatchedNoopShufflingBuffer A} {rows : List R} (new : List R)
      → Holds b rows
      → merge b.batch_start_idx b.buffer (columns (p ∷ projs) new)
        ≡ ok (columns (p ∷ projs) (rows ++ new))
  merge-Holds {b} {rows} new h = elim h.buffered [
    | inl e ↦ rw e (merge-columns b.batch_start_idx h.gone rows new h.started)
    | inr (e, none_yet) ↦ rw (e, none_yet) (merge_new b.batch_start_idx (columns (p ∷ projs) new))
  ]

  -- Rows are appended, whatever was retrieved before.
  pub add_many-Holds :
      {b : BatchedNoopShufflingBuffer A} {rows : List R} (new : List R)
      → Holds b rows
      → (let b' = record b {
        size = b.size + length new;
        buffer = columns (p ∷ projs) (rows ++ new);
        batch_start_idx = 0;
      } in
          (add_many b (columns (p ∷ projs) new) ≡ ok b') × Holds b' (rows ++ new))
  unfolding add_many
  add_many-Holds {b} {rows} new h = (
    rw (first_length-columns p projs new, merge-Holds new h),
    record {
      gone = [];
      buffered = inl refl;
      started = refl;
      counted = omega (arith, h.counted, length-append rows new);
    },
  )

  buffered_pos :
      {b : BatchedNoopShufflingBuffer A} {rows : List R}
      → (h : Holds b rows) → 0 < length rows
      → b.buffer ≡ columns (p ∷ projs) (h.gone ++ rows)
  buffered_pos h pos = elim h.buffered [
    | inl e ↦ e
    | inr (e, none_yet) ↦ absurd (omega (arith, ap length none_yet))
  ]

  slice-columns :
      (start n : ℕ) (gone rows : List R)
      → start ≡ length gone
      → map (slice start (start + n)) (columns (p ∷ projs) (gone ++ rows))
        ≡ columns (p ∷ projs) (take n rows)
  unfolding slice
  slice-columns start n gone rows e =
      let width : start + n - start ≡ n = omega arith in
      map-columns (slice start (start + n)) (p ∷ projs) (gone ++ rows) (take n rows)
        (λ q. rw (drop-map q, drop-append start 0 gone rows (omega arith), take-map q, width))

  -- The first rows come out, a batch or what is left of it.
  pub retrieve-Holds :
      {b : BatchedNoopShufflingBuffer A} {rows : List R}
      → Holds b rows
      → 0 < length rows
      → (let n = min (length rows) b.batch_size in
          ((retrieve b).0 ≡ columns (p ∷ projs) (take n rows)) × Holds (retrieve b).1 (drop n rows))
  unfolding retrieve
  retrieve-Holds {b} {rows} h pos =
      let n = min (length rows) b.batch_size in
      let size : min b.size b.batch_size ≡ n = rw h.counted in
      let e = buffered_pos h pos in
      (
        rw (size, e) (slice-columns b.batch_start_idx n h.gone rows h.started),
        record {
          gone = h.gone ++ take n rows;
          buffered = inl (
              e
              ∙ ap (columns (p ∷ projs))
                  (rw (append_assoc h.gone (take n rows), take-append-drop n rows)));
          started =
              omega
                (arith, size, h.started, length-append h.gone (take n rows), length-take n rows);
          counted = omega (arith, size, h.counted, length-drop n rows);
        },
      )
