-- ===== src/ShufflingBuffer/Random/Runs.antt =====
-- A client that calls the methods in any order and goes on after an exception.
use mathlib.Core.List.{Perm, perm_middle, foldl}
use mathlib.Core.List.Perm
use native.Mathlib.Decide.{dec_lt, dec_le}
use petastorm.Prelude.{
  ℕ, ◌+◌, ◌≤◌, ◌≡◌, refl, ap, true, false, ◌⊎◌, inl, inr, List, [], ◌∷◌, ◌++◌, map, Option, some,
  arith, length, append_assoc, Result, ok, raise, runtime_error, Error, Bool-cases,
}
use petastorm.ShufflingBuffer.Source.{Randint}
use petastorm.ShufflingBuffer.Random.{
  RandomShufflingBuffer, init, can_add, can_retrieve, finish, add_many, retrieve,
}
use petastorm.ShufflingBuffer.Random.Contents.{
  Holds, init-Holds, finish-Holds, add_many-Holds, retrieve-Holds,
}
use petastorm.ShufflingBuffer.Random.Errors.{retrieve_empty, retrieve_blocked, add_many-raises_iff}

pub data Call {ℓ} (A : Type ℓ) : Type ℓ where
  add : List A → Call A
  get : Randint → Call A
  end : Call A

-- The buffer, the rows that it took, and the values that it returned, the last one first.
pub record Run {ℓ} (A : Type ℓ) : Type ℓ where
  pub buffer : RandomShufflingBuffer A
  pub accepted : List A
  pub returned : List (Option A)

module _ {ℓ} {A : Type ℓ} where
  after_add : Run A → List A → Result (RandomShufflingBuffer A) → Run A
  after_add r new (ok b) = record r { buffer = b; accepted = r.accepted ++ new }
  after_add r new (raise e) = r

  after_get : Run A → Result (Option A × RandomShufflingBuffer A) → Run A
  after_get r (ok (x, b)) = record r { buffer = b; returned = x ∷ r.returned }
  after_get r (raise e) = r

  pub call : Run A → Call A → Run A
  unfolding after_add after_get
  call r (add new) = after_add r new (add_many r.buffer new)
  call r (get rng) = after_get r (retrieve rng r.buffer)
  call r end = record r { buffer = finish r.buffer }

  pub run : RandomShufflingBuffer A → List (Call A) → Run A
  run b = foldl call (record { buffer = b; accepted = []; returned = [] })

  -- The accepted rows are those that were returned and those that the buffer holds.
  pub record Conserves (r : Run A) : Type ℓ where
    pub out : List A
    pub held : List A
    pub values : r.returned ≡ map some out
    pub holds : Holds r.buffer held
    pub balance : Perm (out ++ held) r.accepted

  can_add_no :
      (b : RandomShufflingBuffer A) {P : Type 0}
      → can_add b ≡ false
      → (b.done_adding ≡ true) ⊎ (b.shuffling_queue_capacity ≤ b.size) ⊎ P
  unfolding can_add
  can_add_no b h = ground arith

  add_many-cases :
      {b : RandomShufflingBuffer A} {xs : List A} (new : List A)
      → Holds b xs
      → ((e : Error) × (add_many b new ≡ raise e))
        ⊎ ((b' : RandomShufflingBuffer A) × (add_many b new ≡ ok b') × Holds b' (xs ++ new))
  add_many-cases {b} {xs} new h = elim (Bool-cases (can_add b)) [
    | inl open_ ↦
        elim (dec_le (length xs + length new) (b.shuffling_queue_capacity + b.extra_capacity)) [
          | yes room ↦ inr (add_many-Holds new h open_ room)
          | no full ↦
              inl (
                runtime_error,
                (add_many-raises_iff b new).1 (inr (inr (omega (arith, h.counted)))),
              )
        ]
    | inr shut ↦ inl (runtime_error, (add_many-raises_iff b new).1 (can_add_no b shut))
  ]

  retrieve-cases :
      (rng : Randint) {b : RandomShufflingBuffer A} {xs : List A}
      → Holds b xs
      → ((e : Error) × (retrieve rng b ≡ raise e))
        ⊎ ((x : A) × (b' : RandomShufflingBuffer A) × (ys : List A) × (retrieve rng b
              ≡ ok (some x, b'))
            × Holds b' ys
            × Perm (x ∷ ys) xs)
  retrieve-cases rng {b} h = elim (dec_lt 0 b.size) [
    | no empty ↦ inl (_, retrieve_empty b rng (omega arith))
    | yes pos ↦ elim (Bool-cases (can_retrieve b)) [
      | inl open_ ↦ inr (retrieve-Holds rng h open_ pos)
      | inr shut ↦ inl (runtime_error, retrieve_blocked b rng shut pos)
    ]
  ]

  call-Conserves : {r : Run A} (c : Call A) → Conserves r → Conserves (call r c)
  unfolding call
  call-Conserves {r} (add new) h = elim (add_many-cases new h.holds) [
    | inl (e, raised) ↦ rw raised h
    | inr (b, added, holds) ↦ rw added (record {
      out = h.out;
      held = h.held ++ new;
      values = h.values;
      holds = holds;
      balance = rw (← append_assoc h.out h.held new) (Perm.append_right new h.balance);
    })
  ]
  call-Conserves {r} (get rng) h = elim (retrieve-cases rng h.holds) [
    | inl (e, raised) ↦ rw raised h
    | inr (x, b, ys, got, holds, same) ↦ rw got (record {
      out = x ∷ h.out;
      held = ys;
      values = ap (◌∷◌ (some x)) h.values;
      holds = holds;
      balance =
          Perm.trans (Perm.symm (perm_middle h.out ys))
            (Perm.trans (Perm.append_left h.out same) h.balance);
    })
  ]
  call-Conserves end h = record {
    out = h.out;
    held = h.held;
    values = h.values;
    holds = finish-Holds h.holds;
    balance = h.balance;
  }

  run_from-Conserves : (cs : List (Call A)) {r : Run A} → Conserves r → Conserves (foldl call r cs)
  run_from-Conserves [] h = h
  run_from-Conserves (c ∷ cs) h = run_from-Conserves cs (call-Conserves c h)

  -- Whatever the client calls on a new buffer, in any order, finished or not, and whatever indices
  -- are drawn: each row that `add_many` accepted was returned by `retrieve` as often as it was
  -- accepted, or is still held; no value that was returned is one of the unused slots.
  pub run-Conserves :
      (cap min extra : ℕ) (cs : List (Call A)) → Conserves (run (init cap min extra) cs)
  unfolding run
  run-Conserves cap min extra cs = run_from-Conserves cs (record {
    out = [];
    held = [];
    values = refl;
    holds = init-Holds cap min extra;
    balance = Perm.refl [];
  })
