-- ===== src/Queue/Tests.antt =====
-- A queue that grows, wraps round and runs empty.
use hf_qcorral.Prelude.{ℕ, ◌≡◌, List, [], ◌∷◌, arith}
use hf_qcorral.Queue.{make}
use hf_qcorral.Queue.Refine.{make-Holds}
use hf_qcorral.Queue.Trace.{Op, push, pop, run, run_list, run-run_list}

abbrev ops : List (Op ℕ)
ops = push 1 ∷ push 2 ∷ pop ∷ push 3 ∷ pop ∷ pop ∷ pop ∷ []

run-run_list_example : run (make 2) ops ≡ run_list [] ops
unfolding make
run-run_list_example =
    run-run_list (make 2) [] ops (make-Holds 2 (omega arith)) (omega arith) (omega arith)
