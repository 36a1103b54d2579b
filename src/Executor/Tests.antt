-- ===== src/Executor/Tests.antt =====
-- Runs of the executors of a thread (Executor.h).
use hf_qcorral.Prelude.{
  ℕ, zero, suc, ◌+◌, ◌≡◌, ◌≤◌, refl, true, false, none, some, List, [], ◌∷◌, ◌++◌, arith,
}
use hf_qcorral.Executor.{
  task, run_once, Body, done, run_soon, schedule, wake, drain_now, capture, Program, make, World,
  drain, executor_at, body, run, step,
}
use hf_qcorral.Executor.Running.{starts, ends, reentries}
use hf_qcorral.Executor.Steps.{fresh, run-alone}
use hf_qcorral.Executor.Order.{waiting, submissions, starts_of, Spares}
use hf_qcorral.Executor.Fair.{run-fifo}
use hf_qcorral.Executor.Nested.{CanDefer, second_nests}

-- Callback 0 submits itself again, for ever; callback 1 of executor 0 submits one more to it, one to
-- executor 2 of another event loop, and drains its own executor; the others do nothing.
unfoldable program : Program
program zero = run_soon 0 (task 0) done
program (suc zero) = schedule 0 (task 2) (run_soon 2 (task 6) (wake 0 (drain_now 0 done)))
program (suc (suc n)) = done

-- What executor 1 is given is captured.
abbrev busy : Body
busy =
    run_soon 0 (task 1)
      (capture 1 (run_soon 1 (task 3) (schedule 1 (task 4) done)) (run_soon 0 (task 0) done))

abbrev loops : List ℕ
loops = 7 ∷ 7 ∷ 8 ∷ []

busy-Spares : Spares 0 busy
unfolding Spares
busy-Spares = (refl, tt, tt)

program-Spares : (n : ℕ) → Spares 0 (program n)
unfolding Spares program
program-Spares zero = tt
program-Spares (suc zero) = tt
program-Spares (suc (suc n)) = tt

run-alone_example :
    let (w, fs) = run program 100 (fresh loops, body busy ∷ []) in
    (ends 0 w.log ≤ starts 0 w.log)
    × (starts 0 w.log ≤ ends 0 w.log + 1 + reentries 0 fs)
    × (fs ≡ [] → (starts 0 w.log ≡ ends 0 w.log) × ((executor_at 0 w).running ≡ false))
run-alone_example = run-alone program loops busy 0 100 (omega arith)

run-fifo_example :
    let w = (run program 100 (fresh loops, body busy ∷ [])).0 in
    starts_of 0 w.log ++ waiting (executor_at 0 w).ready ≡ submissions 0 w.log
run-fifo_example = run-fifo program loops busy 0 100 (omega arith) busy-Spares program-Spares

-- The callback that drains its executor has the next one called before it returns.
run_order :
    let (w, fs) = run program 13 (fresh loops, body busy ∷ []) in
    (starts_of 0 w.log ≡ 1 ∷ 2 ∷ []) × (ends 0 w.log ≡ 1) × (reentries 0 fs ≡ 1)
unfolding run program
run_order = (refl, refl, refl)

-- The callback of executor 0 is under way, and executor 1 has its event loop.
abbrev two : World
two = record {
  executors =
      record { event_loop = 7; ready = []; running = true; scheduled = false } ∷ make 7 ∷ [];
  current = some 0;
  log = [];
  fault = false;
}

two-CanDefer : CanDefer 0 1 two
unfolding executor_at make
two-CanDefer = record {
  others = λ e. absurd (omega (arith, e));
  here = omega arith;
  there = omega arith;
  current = refl;
  called = refl;
  idle = refl;
  unscheduled = refl;
  cooperates = refl;
}

second_nests_example :
    let rest = drain 0 true none (some 9) ∷ [] in
    let (w1, fs1) =
      step program (two, body (run_soon 1 (task 4) (run_soon 1 (task 5) done)) ∷ rest) in
    let (w2, fs2) = step program (w1, fs1) in
    (fs1 ≡ body (run_soon 1 (task 5) done) ∷ rest)
    × ((executor_at 0 w1).ready ≡ (executor_at 0 two).ready ++ run_once 1 ∷ [])
    × (fs2 ≡ drain 1 true (some 0) none ∷ body done ∷ rest)
    × (w2.current ≡ some 1)
    × ((executor_at 1 w2).ready ≡ ((executor_at 1 two).ready ++ task 4 ∷ []) ++ task 5 ∷ [])
    × (w2.fault ≡ two.fault)
second_nests_example =
    second_nests program 0 1 (task 4) (task 5) done two (drain 0 true none (some 9) ∷ [])
      two-CanDefer
