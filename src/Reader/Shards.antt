-- ===== src/Reader/Shards.antt =====
-- The shards of the row groups: together they are all of them.
use mathlib.Core.List.{Perm, perm_middle}
use mathlib.Core.List.Perm
use native.Mathlib.Nat.{mod-lt}
use petastorm.Prelude.{
  concat, ℕ, zero, suc, ◌+◌, ◌%◌, ◌≤◌, ◌<◌, ◌≡◌, refl, ap, Option, none, some, List, [], ◌∷◌, ◌++◌,
  map, ◌==◌, ok, arith, Bool-cases, inl, inr,
}
use petastorm.NGram.{range_from}
use petastorm.Reader.{filter, partition_row_groups, shuffled}

-- The indexes that shard `k` of `n` keeps.
unfoldable pub shard : ℕ → ℕ → List ℕ → List ℕ
shard n k indexes = filter (λ index. index % n == k) indexes

-- The shards from `k` on, `m` of them.
unfoldable pub shards_from : ℕ → ℕ → ℕ → List ℕ → List ℕ
shards_from n k zero indexes = []
shards_from n k (suc m) indexes = shard n k indexes ++ shards_from n (k + 1) m indexes

shards_before :
    (n k m i : ℕ) (indexes : List ℕ)
    → i % n < k
    → shards_from n k m (i ∷ indexes) ≡ shards_from n k m indexes
unfolding shards_from shard filter
shards_before n k zero i indexes less = refl
shards_before n k (suc m) i indexes less =
    ground (arith, shards_before n (k + 1) m i indexes (omega arith))

-- One more index goes into exactly one of the shards.
shards_with :
    (n k m i : ℕ) (indexes : List ℕ)
    → k ≤ i % n
    → i % n < k + m
    → Perm (shards_from n k m (i ∷ indexes)) (i ∷ shards_from n k m indexes)
unfolding shards_from shard filter
shards_with n k zero i indexes above below = absurd (omega arith)
shards_with n k (suc m) i indexes above below = elim (Bool-cases (i % n == k)) [
  | inl here ↦
      let others = shards_before n (k + 1) m i indexes (ground arith) in
      rw (here, others) (Perm.refl _)
  | inr later ↦ rw later (
      Perm.trans
        (Perm.append_left (shard n k indexes)
          (shards_with n (k + 1) m i indexes (ground arith) (omega arith)))
        (perm_middle (shard n k indexes) (shards_from n (k + 1) m indexes)))
]

no_rows : (n k m : ℕ) → shards_from n k m [] ≡ []
unfolding shards_from shard filter
no_rows n k zero = refl
no_rows n k (suc m) = no_rows n (k + 1) m

shards-Perm : (n : ℕ) (indexes : List ℕ) → 0 < n → Perm (shards_from n 0 n indexes) indexes
shards-Perm n [] pos = rw (no_rows n 0 n) (Perm.refl _)
shards-Perm n (i ∷ indexes) pos =
    Perm.trans (shards_with n 0 n i indexes (omega arith) (omega (arith, mod-lt i pos)))
      (Perm.cons i (shards-Perm n indexes pos))

shards_from-map :
    (n k m : ℕ) (indexes : List ℕ)
    → concat (map (λ j. shard n j indexes) (range_from k m)) ≡ shards_from n k m indexes
unfolding shards_from range_from
shards_from-map n k zero indexes = refl
shards_from-map n k (suc m) indexes =
    ap (λ rest. shard n k indexes ++ rest) (shards_from-map n (k + 1) m indexes)

shuffled-Perm :
    (shuffle : ℕ → List ℕ → List ℕ) (seed : Option ℕ) (indexes : List ℕ)
    → ((s : ℕ) (xs : List ℕ) → Perm (shuffle s xs) xs)
    → Perm (shuffled shuffle seed indexes) indexes
unfolding shuffled
shuffled-Perm shuffle none indexes permutes = Perm.refl indexes
shuffled-Perm shuffle (some s) indexes permutes = permutes s indexes

-- The shards as the readers of a distributed run compute them, one for each of `n` values of
-- `cur_shard`: every reader gets one, and together the shards are the row groups, each exactly as
-- often as before, so that no two readers share a row group and none is left out. It is assumed
-- that the seeded shuffle, the same for all readers, permutes the list.
pub partition_row_groups-Perm :
    (shuffle : ℕ → List ℕ → List ℕ) (total n : ℕ) (indexes : List ℕ) (seed : Option ℕ)
    → ((s : ℕ) (xs : List ℕ) → Perm (shuffle s xs) xs)
    → 0 < n
    → n ≤ total
    → (shards : ℕ → List ℕ) × ((k : ℕ)
        → partition_row_groups shuffle total (some n) (some k) indexes seed ≡ ok (shards k))
      × Perm (concat (map shards (range_from 0 n))) indexes
unfolding partition_row_groups shard
partition_row_groups-Perm shuffle total n indexes seed permutes pos fits = (
  λ k. shard n k (shuffled shuffle seed indexes),
  λ k. ground arith,
  rw (shards_from-map n 0 n (shuffled shuffle seed indexes)) (
      Perm.trans (shards-Perm n (shuffled shuffle seed indexes) pos)
        (shuffled-Perm shuffle seed indexes permutes)),
)
