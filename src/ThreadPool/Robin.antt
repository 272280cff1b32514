-- ===== src/ThreadPool/Robin.antt =====
-- The invariant of strict round robin, which holds while the consumer does not get ahead of the
-- ventilator: the items are consumed one after the other, in the order in which they were handed out.
use petastorm.Prelude.{
  ℕ, ◌+◌, ◌%◌, ◌≡◌, ◌≢◌, refl, ap, ◌∙◌, false, List, [], ◌∷◌, ◌++◌, append_assoc, length,
  length-append, ◌==◌, if◌then◌else◌, arith, Bool-cases, inl, inr,
}
use petastorm.ThreadPool.{ThreadPool, Message, Outcome, messages, init, ventilate}
use petastorm.ThreadPool.Left.{
  assigned, assigned-append, results_of, results_of-messages, ended, ended-messages, is_open,
  is_open-messages, all_messages, all_messages-append, left,
}
use petastorm.ThreadPool.Frames.{left-ventilate}
use petastorm.ThreadPool.Order.{results_in_order}

module _ {R : Type 0} where
  -- The results without their workers.
  abbrev pub values : List (ℕ × R) → List R
  values [] = []
  values ((w, r) ∷ out) = r ∷ values out

  pub values-append : (xs ys : List (ℕ × R)) → values (xs ++ ys) ≡ values xs ++ values ys
  values-append [] ys = refl
  values-append ((w, r) ∷ xs) ys = ap (◌∷◌ r) (values-append xs ys)

module _ {I R : Type 0} (process : I → Outcome R) where
  -- Either everything that was handed out is consumed, and the consumer waits where the next item will
  -- come; or the consumer is at the item `x`, `c` being what is left of its messages.
  pub data IsRobin (all : List I) (n : ℕ) (s : ThreadPool I R) : Type 0 where
    caught_up :
        (handed : List I)
        → handed ++ s.ventilator ≡ all
        → s.ventilated_items ≡ length handed
        → values s.delivered ≡ results_in_order process handed
        → ((w : ℕ) → left process s w ≡ [])
        → (s.ventilator ≢ [] → s.get_results_worker_id ≡ s.ventilated_items % n)
        → IsRobin all n s
    midway :
        (past : List I) (x : I) (xs : List I) (c : List (Message R))
        → past ++ (x ∷ (xs ++ s.ventilator)) ≡ all
        → s.ventilated_items ≡ length past + 1 + length xs
        → s.get_results_worker_id ≡ length past % n
        → values s.delivered ++ results_of c ≡ results_in_order process past ++ (process x).results
        → is_open false c ≡ false
        → ended c ≡ 1
        → ((w : ℕ)
            → left process s w
              ≡ (if length past % n == w then c else [])
                ++ all_messages process (assigned n (length past + 1) xs w))
        → IsRobin all n s

  pub init-IsRobin : (n size : ℕ) (all : List I) → IsRobin all n (init n size all)
  unfolding init left
  init-IsRobin n size all = caught_up [] refl refl refl (λ w. refl) (λ h. grind arith)

  -- A step that leaves the messages, the ventilator and the consumer's worker alone.
  pub IsRobin-moved :
      (all : List I) (n : ℕ) (s t : ThreadPool I R)
      → t.ventilator ≡ s.ventilator
      → t.ventilated_items ≡ s.ventilated_items
      → t.get_results_worker_id ≡ s.get_results_worker_id
      → t.delivered ≡ s.delivered
      → ((w : ℕ) → left process t w ≡ left process s w)
      → IsRobin all n s
      → IsRobin all n t
  IsRobin-moved all n s t a b c d l (caught_up handed e1 e2 e3 e4 e5) =
      caught_up handed (rw a e1) (rw b e2) (rw d e3) (λ w. l w ∙ e4 w)
        (λ h. rw (c, b) (e5 (λ z. h (a ∙ z))))
  IsRobin-moved all n s t a b c d l (midway past x xs m e1 e2 e3 e4 e5 e6 e7) =
      midway past x xs m (rw a e1) (rw b e2) (rw c e3) (rw d e4) e5 e6 (λ w. l w ∙ e7 w)

  pub ventilate-IsRobin :
      (all : List I) (n : ℕ) (s : ThreadPool I R) (x : I) (rest : List I)
      → s.workers_count ≡ n
      → s.ventilator ≡ x ∷ rest
      → IsRobin all n s
      → IsRobin all n (ventilate (record s { ventilator = rest }) x)
  unfolding ventilate
  ventilate-IsRobin all n s x rest wc v (caught_up handed e1 e2 e3 e4 e5) =
      midway handed x [] (messages (process x)) (rw v at e1) (omega (arith, e2))
        (rw (← e2) (e5 (λ h. cc))) (rw (e3, results_of-messages (process x)) refl)
        (is_open-messages false (process x)) (ended-messages (process x))
        (λ w.
          rw (left-ventilate process s rest x w, e4 w, wc, e2)
            (elim (Bool-cases (length handed % n == w)) [
              | inl same ↦ rw same refl
              | inr other ↦ rw other refl
            ]))
  ventilate-IsRobin all n s y rest wc v (midway past x xs c e1 e2 e3 e4 e5 e6 e7) =
      midway past x (xs ++ y ∷ []) c (rw append_assoc (rw v at e1))
        (rw (length-append xs (y ∷ [])) (omega (arith, e2))) e3 e4 e5 e6
        (λ w.
          rw
            (
              left-ventilate process s rest y w,
              e7 w,
              wc,
              e2,
              assigned-append n (length past + 1) xs y w,
              all_messages-append process (assigned n (length past + 1) xs w),
              append_assoc,
            )
            refl)
