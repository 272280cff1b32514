-- ===== src/BatchedBuffer/Interface.antt =====
-- What the batched loader needs of a batched shuffling buffer (`BatchedShufflingBufferBase`): the
-- operations, and the laws that the loader's theorems rest on. `Same` says how the order of the rows
-- may change.
use petastorm.Prelude.{
  ℕ, ◌+◌, ◌≤◌, ◌<◌, ◌≡◌, min, Bool, true, false, List, [], ◌++◌, length, ok, Result,
}
use petastorm.Tensors.Randperm.{Randperm}
use petastorm.BatchedBuffer.Columns.{columns}

pub record BatchedShufflingBufferBase (A : Type 0) : Type 1 where
  pub Buffer : Type 0
  pub add_many : Buffer → List (List A) → Result Buffer
  pub retrieve : Randperm → Buffer → Result (List (List A) × Buffer)
  pub can_retrieve : Buffer → Bool
  pub finish : Buffer → Buffer
  pub size : Buffer → ℕ

-- `Phase done b` is the state of a buffer before and after `finish`; `n` is the batch size, and
-- `limit` the number of rows that are added at once.
pub record IsBuffer {R A : Type 0} (I : BatchedShufflingBufferBase A) (projs : List (R → A))
    (n limit : ℕ) : Type 1 where
  pub Same : List R → List R → Type 0
  pub Same-refl : (xs : List R) → Same xs xs
  pub Same-trans : (xs ys zs : List R) → Same xs ys → Same ys zs → Same xs zs
  pub Same-append_right : (xs ys zs : List R) → Same xs ys → Same (xs ++ zs) (ys ++ zs)
  pub Same-append_left : (zs xs ys : List R) → Same xs ys → Same (zs ++ xs) (zs ++ ys)
  pub Holds : BatchedShufflingBufferBase.Buffer I → List R → Type 0
  pub Phase : Bool → BatchedShufflingBufferBase.Buffer I → Type 0
  pub sized : (b : I.Buffer) (xs : List R) → Holds b xs → I.size b ≡ length xs
  pub adds :
      (b : I.Buffer) (xs new : List R)
      → Holds b xs
      → Phase false b
      → I.can_retrieve b ≡ false
      → length new ≤ limit
      → (b' : I.Buffer) × (I.add_many b (columns projs new) ≡ ok b')
        × Holds b' (xs ++ new)
        × Phase false b'
  pub retrieves :
      (done : Bool) (rng : Randperm) (b : I.Buffer) (xs : List R)
      → Holds b xs
      → Phase done b
      → I.can_retrieve b ≡ true
      → (out ys : List R) × (b' : I.Buffer) × (I.retrieve rng b ≡ ok (columns projs out, b'))
        × Holds b' ys
        × Phase done b'
        × Same (out ++ ys) xs
        × (length out ≡ min n (length xs))
        × (length out + length ys ≡ length xs)
        × (0 < length xs)
        × (done ≡ false → n ≤ length xs)
  pub finishes :
      (b : I.Buffer) (xs : List R)
      → Holds b xs
      → Phase false b
      → Holds (I.finish b) xs × Phase true (I.finish b)
  pub drains :
      (b : I.Buffer) (xs : List R) → Holds b xs → Phase true b → I.can_retrieve b ≡ false → xs ≡ []
