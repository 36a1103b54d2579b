-- ===== src/Queue/Trace.antt =====
-- A client of the queue (detail/Queue.h) that looks at `empty()` before it takes the front.
use hf_qcorral.Prelude.{
  ◌+◌, ◌^◌, ◌<◌, ◌≡◌, refl, ap, ap₂, List, [], ◌∷◌, ◌++◌, Option, none, some, arith, length,
  length-append, if◌then◌else◌, suc-eqb-zero,
}
use hf_qcorral.Queue.{Queue, is_empty, front, pop_front, push_back}
use hf_qcorral.Queue.Refine.{
  Holds, push_back-Holds, pop_front-Holds, front-Holds, is_empty-Holds, capacity-push_back,
  capacity-pop_front,
}

pub data Op (A : Type 0) : Type 0 where
  push : A → Op A
  pop : Op A

module _ {A : Type 0} where
  -- What each `pop` finds at the front.
  unfoldable pub run : Queue A → List (Op A) → List (Option A)
  run q [] = []
  run q (push u ∷ ops) = run (push_back u q) ops
  run q (pop ∷ ops) =
      let later = front q ∷ run (pop_front q) ops in
      let idle = none ∷ run q ops in if is_empty q then idle else later

  -- The abstract queue.
  unfoldable pub run_list : List A → List (Op A) → List (Option A)
  run_list xs [] = []
  run_list xs (push u ∷ ops) = run_list (xs ++ u ∷ []) ops
  run_list [] (pop ∷ ops) = none ∷ run_list [] ops
  run_list (x ∷ xs) (pop ∷ ops) = some x ∷ run_list xs ops

  -- From a state that holds `xs`, with a capacity below 2^61 and fewer than 2^60 objects and calls
  -- together, every history of pushes and guarded pops gives what the plain list gives.
  pub run-run_list :
      (q : Queue A) (xs : List A) (ops : List (Op A))
      → Holds q xs
      → q.capacity < 2 ^ 61
      → length xs + length ops < 2 ^ 60
      → run q ops ≡ run_list xs ops
  unfolding run run_list
  run-run_list q xs [] v c h = refl
  run-run_list q xs (push u ∷ ops) v c h =
      run-run_list (push_back u q) (xs ++ u ∷ []) ops (push_back-Holds u q xs v c)
        (capacity-push_back u q xs v c (omega arith)) (omega (arith, length-append xs (u ∷ [])))
  run-run_list q [] (pop ∷ ops) v c h =
      rw (is_empty-Holds q [] v) (ap (◌∷◌ none) (run-run_list q [] ops v c (omega arith)))
  run-run_list q (x ∷ xs) (pop ∷ ops) v c h =
      rw (is_empty-Holds q (x ∷ xs) v, suc-eqb-zero (length xs))
        (ap₂ ◌∷◌ (front-Holds q x xs v) (
          run-run_list (pop_front q) xs ops (pop_front-Holds q x xs v) (rw (capacity-pop_front q) c)
            (omega arith)))
