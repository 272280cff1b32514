-- ===== src/ThreadPool/Left.antt =====
-- What is on its way from the ventilator to the consumer, worker by worker.
use petastorm.Prelude.{
  Error, ℕ, suc, ◌+◌, ◌%◌, ◌≡◌, ◌≢◌, refl, ap, Bool, true, false, Option, none, some, List, [], ◌∷◌,
  ◌++◌, map, map-append, append-nil, concat, concat-append, length, ◌==◌, if◌then◌else◌, arith,
  Bool-cases, inl, inr,
}
use petastorm.ThreadPool.{
  ThreadPool, Worker, idle, busy, terminated, Message, result, item_processed, failure, Outcome,
  messages, last_message, after_put,
}

-- The items of a worker, where the first of `xs` is the `k`th one that is handed out.
abbrev pub assigned : {I : Type 0} → ℕ → ℕ → List I → ℕ → List I
assigned n k [] w = []
assigned n k (x ∷ xs) w =
    if k % n == w then x ∷ assigned n (k + 1) xs w else assigned n (k + 1) xs w

module _ {R : Type 0} where
  -- The results among some messages.
  abbrev pub results_of : List (Message R) → List R
  results_of [] = []
  results_of (result r ∷ ms) = r ∷ results_of ms
  results_of (item_processed ∷ ms) = results_of ms
  results_of (failure e ∷ ms) = results_of ms

  -- The number of items that some messages end.
  abbrev pub ended : List (Message R) → ℕ
  ended [] = 0
  ended (result r ∷ ms) = ended ms
  ended (item_processed ∷ ms) = suc (ended ms)
  ended (failure e ∷ ms) = suc (ended ms)

  -- The results that came from a worker.
  abbrev pub from_worker : ℕ → List (ℕ × R) → List R
  from_worker w [] = []
  from_worker w ((v, r) ∷ out) = if v == w then r ∷ from_worker w out else from_worker w out

  abbrev pub pending : Worker R → List (Message R)
  pending idle = []
  pending (busy ms) = ms
  pending (terminated ms) = ms

  pub results_of-append :
      (xs ys : List (Message R)) → results_of (xs ++ ys) ≡ results_of xs ++ results_of ys
  results_of-append [] ys = refl
  results_of-append (result r ∷ xs) ys = ap (◌∷◌ r) (results_of-append xs ys)
  results_of-append (item_processed ∷ xs) ys = results_of-append xs ys
  results_of-append (failure e ∷ xs) ys = results_of-append xs ys

  pub ended-append : (xs ys : List (Message R)) → ended (xs ++ ys) ≡ ended xs + ended ys
  ended-append [] ys = omega arith
  ended-append (result r ∷ xs) ys = ended-append xs ys
  ended-append (item_processed ∷ xs) ys = omega (arith, ended-append xs ys)
  ended-append (failure e ∷ xs) ys = omega (arith, ended-append xs ys)

  pub from_worker-append :
      (w : ℕ) (xs ys : List (ℕ × R))
      → from_worker w (xs ++ ys) ≡ from_worker w xs ++ from_worker w ys
  from_worker-append w [] ys = refl
  from_worker-append w ((v, r) ∷ xs) ys = elim (Bool-cases (v == w)) [
    | inl e ↦ rw (e, from_worker-append w xs ys) refl
    | inr e ↦ rw (e, from_worker-append w xs ys) refl
  ]

  results_of-map : (rs : List R) → results_of (map result rs) ≡ rs
  results_of-map [] = refl
  results_of-map (r ∷ rs) = ap (◌∷◌ r) (results_of-map rs)

  ended-map : (rs : List R) → ended (map result rs) ≡ 0
  ended-map [] = refl
  ended-map (r ∷ rs) = ended-map rs

  results_of-last : (e : Option Error) → results_of (last_message {R = R} e ∷ []) ≡ []
  unfolding last_message
  results_of-last none = refl
  results_of-last (some e) = refl

  -- Whether results wait for the end of their item, when `b` says so of what came before.
  abbrev pub is_open : Bool → List (Message R) → Bool
  is_open b [] = b
  is_open b (result r ∷ ms) = is_open true ms
  is_open b (item_processed ∷ ms) = is_open false ms
  is_open b (failure e ∷ ms) = is_open false ms

  pub results_of-messages : (o : Outcome R) → results_of (messages o) ≡ o.results
  unfolding messages
  results_of-messages o =
      rw
        (
          results_of-append (map result o.results),
          results_of-map o.results,
          results_of-last o.error,
        )
        (append-nil o.results)

  pub pending-after_put : (m : Message R) (ms : List (Message R)) → pending (after_put m ms) ≡ ms
  unfolding after_put
  pending-after_put (result r) [] = refl
  pending-after_put (result r) (m ∷ ms) = refl
  pending-after_put item_processed [] = refl
  pending-after_put item_processed (m ∷ ms) = refl
  pending-after_put (failure e) ms = refl

ended-last : (R : Type 0) (e : Option Error) → ended {R = R} (last_message e ∷ []) ≡ 1
unfolding last_message
ended-last R none = refl
ended-last R (some e) = refl

is_open-last :
    (R : Type 0) (b : Bool) (e : Option Error) → is_open {R = R} b (last_message e ∷ []) ≡ false
unfolding last_message
is_open-last R b none = refl
is_open-last R b (some e) = refl

module _ {R : Type 0} where
  pub ended-messages : (o : Outcome R) → ended (messages o) ≡ 1
  unfolding messages
  ended-messages o = omega (
    arith,
    ended-append (map result o.results) (last_message o.error ∷ []),
    ended-map o.results,
    ended-last R o.error,
  )

  pub is_open-append :
      (b : Bool) (xs ys : List (Message R)) → is_open b (xs ++ ys) ≡ is_open (is_open b xs) ys
  is_open-append b [] ys = refl
  is_open-append b (result r ∷ xs) ys = is_open-append true xs ys
  is_open-append b (item_processed ∷ xs) ys = is_open-append false xs ys
  is_open-append b (failure e ∷ xs) ys = is_open-append false xs ys

  pub is_open-messages : (b : Bool) (o : Outcome R) → is_open b (messages o) ≡ false
  unfolding messages
  is_open-messages b o =
      rw (is_open-append b (map result o.results))
        (is_open-last R (is_open b (map result o.results)) o.error)

  pub is_open_weaken : (ms : List (Message R)) → is_open true ms ≡ false → is_open false ms ≡ false
  is_open_weaken [] h = cc
  is_open_weaken (result r ∷ ms) h = h
  is_open_weaken (item_processed ∷ ms) h = h
  is_open_weaken (failure e ∷ ms) h = h

  none_open : (ms : List (Message R)) → is_open true ms ≡ false → ended ms ≢ 0
  none_open [] h = cc
  none_open (result r ∷ ms) h = none_open ms h
  none_open (item_processed ∷ ms) h = omega arith
  none_open (failure e ∷ ms) h = omega arith

  -- Where no item is unfinished, no message is left.
  pub nothing_left : (ms : List (Message R)) → is_open false ms ≡ false → ended ms ≡ 0 → ms ≡ []
  nothing_left [] h e = refl
  nothing_left (result r ∷ ms) h e = absurd (none_open ms h e)
  nothing_left (item_processed ∷ ms) h e = absurd (omega arith)
  nothing_left (failure f ∷ ms) h e = absurd (omega arith)

module _ {I R : Type 0} (process : I → Outcome R) where
  abbrev pub all_messages : List I → List (Message R)
  all_messages xs = concat (map (λ x. messages (process x)) xs)

  -- The messages of a worker that the consumer did not take yet.
  unfoldable pub left : ThreadPool I R → ℕ → List (Message R)
  left s w = s.results_queues w ++ (pending (s.workers w) ++ all_messages (s.ventilator_queues w))

  pub all_messages-append :
      (xs ys : List I) → all_messages (xs ++ ys) ≡ all_messages xs ++ all_messages ys
  all_messages-append xs ys =
      rw (map-append, concat-append (map (λ x. messages (process x)) xs)) refl

  pub ended-all_messages : (xs : List I) → ended (all_messages xs) ≡ length xs
  ended-all_messages [] = refl
  ended-all_messages (x ∷ xs) = omega (
    arith,
    ended-append (messages (process x)) (all_messages xs),
    ended-messages (process x),
    ended-all_messages xs,
  )

  pub is_open-all_messages : (xs : List I) → is_open false (all_messages xs) ≡ false
  is_open-all_messages [] = refl
  is_open-all_messages (x ∷ xs) =
      rw (is_open-append false (messages (process x)), is_open-messages false (process x))
        (is_open-all_messages xs)

-- Handing out one more item.
pub assigned-append :
    {I : Type 0} (n k : ℕ) (xs : List I) (x : I) (w : ℕ)
    → assigned n k (xs ++ x ∷ []) w
      ≡ assigned n k xs w ++ (if (k + length xs) % n == w then x ∷ [] else [])
assigned-append n k [] x w = let e : k + 0 ≡ k = omega arith in rw e refl
assigned-append n k (y ∷ xs) x w =
    let e : k + 1 + length xs ≡ k + suc (length xs) = omega arith in
    elim (Bool-cases (k % n == w)) [
      | inl here ↦ rw (here, ← e) (ap (◌∷◌ y) (assigned-append n (k + 1) xs x w))
      | inr there ↦ rw (there, ← e) (assigned-append n (k + 1) xs x w)
    ]
