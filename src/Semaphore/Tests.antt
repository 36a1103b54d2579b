-- ===== src/Semaphore/Tests.antt =====
-- A mutex, and two tasks that contend for it.
use hf_qcorral.Prelude.{◌+◌, ◌-◌, ◌≡◌, refl, inl, inr, List, [], ◌∷◌, arith, size_mod}
use hf_qcorral.Semaphore.{await_resume}
use hf_qcorral.Semaphore.Count.{
  World, Call, acquire, give_back, run_next, step, run, ArePolite, Inv, run-Inv, barge_underflow,
}

abbrev mutex : World
mutex = record { sem = record { value = 1; parked = [] }; woken = []; acquired = 0; released = 0 }

abbrev calls : List Call
calls = acquire 1 10 ∷ acquire 2 20 ∷ give_back ∷ run_next ∷ []

mutex-Inv : Inv 1 mutex
mutex-Inv = record { conserved = refl; covered = omega arith; no_idle = inl refl }

calls-ArePolite : ArePolite mutex calls
unfolding step await_resume
calls-ArePolite = (inr (omega arith), (inl refl, (tt, (tt, tt))))

run-Inv_example : Inv 1 (run mutex calls)
run-Inv_example = run-Inv 1 mutex calls calls-ArePolite (omega arith) mutex-Inv

abbrev contended : World
contended = record {
  sem = record { value = 0; parked = record { item = 2; handle = 20 } ∷ [] };
  woken = [];
  acquired = 1;
  released = 0;
}

barge_underflow_example :
    let after = run contended (give_back ∷ acquire 3 30 ∷ run_next ∷ []) in
    (after.sem.value ≡ size_mod - 1)
    × (after.released ≡ contended.released + 1)
    × (after.acquired ≡ contended.acquired + 2)
barge_underflow_example =
    barge_underflow contended (record { item = 2; handle = 20 }) [] 3 30 refl refl refl
