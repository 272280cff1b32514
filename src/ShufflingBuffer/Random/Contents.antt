-- ===== src/ShufflingBuffer/Random/Contents.antt =====
-- What a `RandomShufflingBuffer` holds: the rows of its used slots. `Holds` relates the array to
-- that list, which is the buffer's abstract state.
use mathlib.Core.List.{Perm, perm_middle, perm_append_singleton}
use mathlib.Core.List.Perm
use native.Mathlib.Decide.{dec_lt}
use petastorm.Prelude.{
  ℕ, suc, ◌+◌, ◌-◌, ◌<◌, ◌≤◌, ◌≡◌, refl, ap, true, Option, none, some, List, [], ◌∷◌, ◌++◌, map,
  map-append, append_assoc, arith, length, replicate, ok, length-append, length-map, take-append,
  drop-append, drop-replicate,
}
use petastorm.ShufflingBuffer.Source.{Randint}
use petastorm.Indexing.{
  get_item, set_item, set_slice, split_at, split_last, get_item_middle, set_item_middle,
}
use petastorm.ShufflingBuffer.Random.{
  RandomShufflingBuffer, init, can_add, can_retrieve, finish, add_many, retrieve,
}

module _ {ℓ} {A : Type ℓ} where
  -- The slots of a buffer that holds `xs` and has room for `free` more rows.
  abbrev pub slots : ℕ → List A → List (Option A)
  slots free xs = map some xs ++ replicate free none

  pub record Holds (b : RandomShufflingBuffer A) (xs : List A) : Type ℓ where
    pub free : ℕ
    pub array : b.items ≡ slots free xs
    pub counted : b.size ≡ length xs
    pub total : length xs + free ≡ b.shuffling_queue_capacity + b.extra_capacity

  pub init-Holds : (cap min extra : ℕ) → Holds (init cap min extra) []
  unfolding init
  init-Holds cap min extra = record {
    free = cap + extra;
    array = refl;
    counted = refl;
    total = omega arith;
  }

  pub finish-Holds : {b : RandomShufflingBuffer A} {xs : List A} → Holds b xs → Holds (finish b) xs
  unfolding finish
  finish-Holds h = record { free = h.free; array = h.array; counted = h.counted; total = h.total }

  set_slice-slots :
      (free : ℕ) (xs new : List A)
      → set_slice (slots free xs) (length xs) (length xs + length new) (map some new)
        ≡ slots (free - length new) (xs ++ new)
  unfolding set_slice
  set_slice-slots free xs new = rw (
    take-append (length xs) (map some xs) (replicate free none) (length-map some xs),
    drop-append (length xs + length new) (length new) (map some xs) (replicate free none)
        (omega (arith, length-map some xs)),
    drop-replicate,
    map-append,
    append_assoc,
  )

  -- Adding rows appends them to what the buffer holds, where the guards let them in.
  pub add_many-Holds :
      {b : RandomShufflingBuffer A} {xs : List A} (new : List A)
      → Holds b xs
      → can_add b ≡ true
      → length xs + length new ≤ b.shuffling_queue_capacity + b.extra_capacity
      → (b' : RandomShufflingBuffer A) × (add_many b new ≡ ok b') × Holds b' (xs ++ new)
  unfolding add_many
  add_many-Holds {b} {xs} new h open_ room = (
    record b {
      items = set_slice b.items b.size (b.size + length new) (map some new);
      size = b.size + length new;
    },
    ground (arith, h.counted),
    record {
      free = h.free - length new;
      array = rw (h.array, h.counted) (set_slice-slots h.free xs new);
      counted = omega (arith, length-append xs new, h.counted);
      total = omega (arith, length-append xs new, h.total);
    },
  )

  exchange : (us vs : List A) (x z : A) → Perm (x ∷ (us ++ z ∷ vs)) ((us ++ x ∷ vs) ++ z ∷ [])
  exchange us vs x z = Perm.trans (Perm.cons x (perm_middle us vs)) (
      Perm.trans (Perm.swap z x (us ++ vs)) (
        Perm.trans (Perm.cons z (Perm.symm (perm_middle us vs)))
          (Perm.symm (perm_append_singleton z (us ++ x ∷ vs)))))

  -- What `retrieve` does to the array when the index `i` is drawn: `x` goes out, and the last row
  -- takes its place.
  record Taken (free i : ℕ) (xs : List A) : Type ℓ where
    x : A
    last : A
    ys : List A
    moved : List (Option A)
    found : get_item (slots free xs) i ≡ ok (some x)
    at_end : get_item (slots free xs) (length xs - 1) ≡ ok (some last)
    move : set_item (slots free xs) i (some last) ≡ ok moved
    clear : set_item moved (length xs - 1) none ≡ ok (slots (suc free) ys)
    same : Perm (x ∷ ys) xs
    shorter : length xs ≡ length ys + 1

  -- An array with one slot in the middle, its left part `map some us`.
  middle_slots :
      (free : ℕ) (us vs : List A) (w : A)
      → slots free (us ++ w ∷ vs) ≡ map some us ++ some w ∷ (map some vs ++ replicate free none)
  middle_slots free us vs w = rw (map-append, append_assoc)

  slots_item :
      (free : ℕ) (us vs : List A) (w : A) (i : ℕ)
      → length us ≡ i
      → get_item (slots free (us ++ w ∷ vs)) i ≡ ok (some w)
  slots_item free us vs w i e =
      rw (middle_slots free us vs w) (get_item_middle _ _ _ i (omega (arith, length-map some us)))

  slots_move :
      (free : ℕ) (us vs : List A) (w v : A) (i : ℕ)
      → length us ≡ i
      → set_item (slots free (us ++ w ∷ vs)) i (some v) ≡ ok (slots free (us ++ v ∷ vs))
  slots_move free us vs w v i e =
      rw (middle_slots free us vs w, middle_slots free us vs v)
        (set_item_middle _ _ _ _ i (omega (arith, length-map some us)))

  slots_clear :
      (free : ℕ) (us : List A) (w : A) (i : ℕ)
      → length us ≡ i
      → set_item (slots free (us ++ w ∷ [])) i none ≡ ok (slots (suc free) us)
  slots_clear free us w i e =
      rw (middle_slots free us [] w) (set_item_middle _ _ _ _ i (omega (arith, length-map some us)))

  -- The drawn row is the last one.
  take_last : (free i : ℕ) (us : List A) (x : A) → length us ≡ i → Taken free i (us ++ x ∷ [])
  take_last free i us x e =
      let size = length-append us (x ∷ []) in
      record {
        x = x;
        last = x;
        ys = us;
        moved = slots free (us ++ x ∷ []);
        found = slots_item free us [] x i e;
        at_end = slots_item free us [] x _ (omega arith);
        move = slots_move free us [] x x i e;
        clear = slots_clear free us x _ (omega arith);
        same = Perm.symm (perm_append_singleton x us);
        shorter = size;
      }

  -- The drawn row stands before the last one, `z`.
  take_inner :
      (free i : ℕ) (us : List A) (x : A) (vs : List A) (z : A)
      → length us ≡ i
      → Taken free i ((us ++ x ∷ vs) ++ z ∷ [])
  take_inner free i us x vs z e =
      let size = length-append (us ++ x ∷ vs) (z ∷ []) in
      let front : length (us ++ z ∷ vs) ≡ length (us ++ x ∷ vs) =
        omega (arith, length-append us (x ∷ vs), length-append us (z ∷ vs)) in
      record {
        x = x;
        last = z;
        ys = us ++ z ∷ vs;
        moved = slots free ((us ++ z ∷ vs) ++ z ∷ []);
        found = rw (append_assoc us (x ∷ vs) (z ∷ [])) (slots_item free us (vs ++ z ∷ []) x i e);
        at_end = slots_item free (us ++ x ∷ vs) [] z _ (omega arith);
        move =
            rw (append_assoc us (x ∷ vs) (z ∷ []), append_assoc us (z ∷ vs) (z ∷ []))
              (slots_move free us (vs ++ z ∷ []) x z i e);
        clear = slots_clear free (us ++ z ∷ vs) z _ (omega arith);
        same = exchange us vs x z;
        shorter = omega arith;
      }

  take_snoc : (free i : ℕ) (us : List A) (z : A) → i ≤ length us → Taken free i (us ++ z ∷ [])
  take_snoc free i us z h = elim (dec_lt i (length us)) [
    | yes p ↦ let (vs, x, ws, e, n) = split_at us i p in rw e (take_inner free i vs x ws z n)
    | no p ↦ take_last free i us z (omega arith)
  ]

  take_at : (free i : ℕ) (xs : List A) → i < length xs → Taken free i xs
  take_at free i xs h =
      let (us, z, e) = split_last xs (omega arith) in
      rw e (take_snoc free i us z (omega (arith, length-append us (z ∷ []), ap (length {A = A}) e)))

  -- The statements of `retrieve` in turn.
  retrieve_steps :
      (rng : Randint) (b : RandomShufflingBuffer A) (i : ℕ) (x last : Option A)
      (moved cleared : List (Option A))
      → can_retrieve b ≡ true
      → rng.draw 0 b.size ≡ ok i
      → get_item b.items i ≡ ok x
      → get_item b.items (b.size - 1) ≡ ok last
      → set_item b.items i last ≡ ok moved
      → set_item moved (b.size - 1) none ≡ ok cleared
      → retrieve rng b ≡ ok (x, record b { items = cleared; size = b.size - 1 })
  unfolding retrieve
  retrieve_steps rng b i x last moved cleared may drawn e f g k = ground arith

  -- A retrieval that is allowed, from a buffer that is not empty, gives one of the rows that the
  -- buffer holds, whatever index is drawn; the buffer then holds the others.
  pub retrieve-Holds :
      (rng : Randint) {b : RandomShufflingBuffer A} {xs : List A}
      → Holds b xs
      → can_retrieve b ≡ true
      → 0 < b.size
      → (x : A) × (b' : RandomShufflingBuffer A) × (ys : List A) × (retrieve rng b
          ≡ ok (some x, b'))
        × Holds b' ys
        × Perm (x ∷ ys) xs
  retrieve-Holds rng {b} {xs} h open_ nonempty =
      let (i, drawn, _, below) = rng.draw_in_range 0 b.size nonempty in
      let t = take_at h.free i xs (omega (arith, h.counted)) in
      (
        t.x,
        record b { items = slots (suc h.free) t.ys; size = b.size - 1 },
        t.ys,
        retrieve_steps rng b i (some t.x) (some t.last) t.moved (slots (suc h.free) t.ys) open_
            drawn (rw h.array t.found) (rw (h.array, h.counted) t.at_end) (rw h.array t.move)
            (rw h.counted t.clear),
        record {
          free = suc h.free;
          array = refl;
          counted = omega (arith, h.counted, t.shorter);
          total = omega (arith, h.total, t.shorter);
        },
        t.same,
      )
