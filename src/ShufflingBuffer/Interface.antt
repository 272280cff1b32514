-- ===== src/ShufflingBuffer/Interface.antt =====
-- What a data loader needs of a shuffling buffer (`ShufflingBufferBase`): the operations, and the
-- laws that the loader's theorems rest on. `Same` says how the order of the rows may change.
use petastorm.Prelude.{
  ℕ, ◌+◌, ◌≤◌, ◌≡◌, Bool, true, false, Option, some, List, [], ◌∷◌, ◌++◌, length, ok, Result,
}
use petastorm.ShufflingBuffer.Source.{Randint}

pub record ShufflingBufferBase (A : Type 0) : Type 1 where
  pub Buffer : Type 0
  pub add_many : Buffer → List A → Result Buffer
  pub retrieve : Randint → Buffer → Result (Option A × Buffer)
  pub can_retrieve : Buffer → Bool
  pub finish : Buffer → Buffer
  pub size : Buffer → ℕ

-- `Phase done b` is the state of a buffer before and after `finish`.
pub record IsBuffer {A : Type 0} (I : ShufflingBufferBase A) (limit : ℕ) : Type 1 where
  pub Same : List A → List A → Type 0
  pub Same-refl : (xs : List A) → Same xs xs
  pub Same-trans : (xs ys zs : List A) → Same xs ys → Same ys zs → Same xs zs
  pub Same-append_right : (xs ys zs : List A) → Same xs ys → Same (xs ++ zs) (ys ++ zs)
  pub Same-cons : (x : A) (xs ys : List A) → Same xs ys → Same (x ∷ xs) (x ∷ ys)
  pub Holds : ShufflingBufferBase.Buffer I → List A → Type 0
  pub Phase : Bool → ShufflingBufferBase.Buffer I → Type 0
  pub sized : (b : I.Buffer) (xs : List A) → Holds b xs → I.size b ≡ length xs
  pub adds :
      (b : I.Buffer) (xs new : List A)
      → Holds b xs
      → Phase false b
      → I.can_retrieve b ≡ false
      → length new ≤ limit
      → (b' : I.Buffer) × (I.add_many b new ≡ ok b') × Holds b' (xs ++ new) × Phase false b'
  pub retrieves :
      (done : Bool) (rng : Randint) (b : I.Buffer) (xs : List A)
      → Holds b xs
      → Phase done b
      → I.can_retrieve b ≡ true
      → (x : A) × (b' : I.Buffer) × (ys : List A) × (I.retrieve rng b ≡ ok (some x, b'))
        × Holds b' ys
        × Phase done b'
        × Same (x ∷ ys) xs
        × (length xs ≡ length ys + 1)
  pub finishes :
      (b : I.Buffer) (xs : List A)
      → Holds b xs
      → Phase false b
      → Holds (I.finish b) xs × Phase true (I.finish b)
  pub drains :
      (b : I.Buffer) (xs : List A) → Holds b xs → Phase true b → I.can_retrieve b ≡ false → xs ≡ []
