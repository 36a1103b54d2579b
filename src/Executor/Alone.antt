-- ===== src/Executor/Alone.antt =====
-- An executor calls one callback of its queue at a time (Executor.h).
use hf_qcorral.Prelude.{
  ℕ, ◌≤◌, ◌<◌, ◌≡◌, refl, ap, inl, inr, ◌∙◌, Bool, true, false, not, ◌&&◌, Bool-cases, Option, none,
  some, List, [], ◌∷◌, ◌==◌, if◌then◌else◌, length, length-set, arith,
}
use hf_qcorral.Executor.{
  Program, drain_now, leave, call, Task, task, run_once, Body, done, run_soon, schedule, wake,
  capture, started, ended, World, Frame, body, captured, drain, drain_captured, executor_at,
  put_executor, set_ready, submit, enter, run_body, next_ready, take_on,
}
use hf_qcorral.Executor.Running.{
  starts-append, ends-append, drains_of, calls_of, runs, Balance, Quiet, Quiet-refl,
  set_ready-Quiet, submit-Quiet,
}
use hf_qcorral.Executor.Entries.{
  as_number, runs-put_executor, runs-enter, busy_runs, Quiet-Balance, nothing-Balance,
  entered-Balance, wake_up-Balance, call-Balance, below-Balance,
}

pub runs-le-one : (e : ℕ) (w : World) → runs e w ≤ 1
runs-le-one e w = ground arith

-- A drain that ends.
stopped-Balance :
    (e d : ℕ) (w : World) (prev : Option ℕ)
    → e < length w.executors
    → (if d == e then 1 else 0) ≤ runs e w
    → let x = record (executor_at d w) { running = false } in
      Balance e (if d == e then 1 else 0) 0 w (record (put_executor d x w) { current = prev }) []
unfolding executor_at put_executor
stopped-Balance e d w prev h r =
    let x = record (executor_at d w) { running = false } in
    let now = runs-put_executor e d x w h in
    record {
      running = elim (Bool-cases (d == e)) [
        | inl s ↦
            let now' : runs e (put_executor d x w) ≡ 0 = rw s at now in
            let r' : 1 ≤ runs e w = rw s at r in rw s (omega (arith, now', r', runs-le-one e w))
        | inr s ↦
            let now' : runs e (put_executor d x w) ≡ runs e w = rw s at now in
            rw s (omega (arith, now'))
      ];
      marks = omega arith;
      kept = length-set w.executors d x;
    }

-- The drain of what was captured: whether it is what makes the executor run.
captured-Balance :
    (e d : ℕ) (w w' : World) (prev : Option ℕ) (ts : List Task) (owned : Bool)
    → e < length w.executors
    → Quiet e w w'
    → not (executor_at d w).running ≡ owned
    → Balance e 0 0 w (enter d w') (drain_captured d ts owned prev ∷ [])
unfolding enter put_executor
captured-Balance e d w w' prev ts true h q n =
    let b = entered-Balance e d w w' prev h q (ground (arith, n)) in
    record { running = b.running; marks = b.marks; kept = b.kept }
captured-Balance e d w w' prev ts false h q n =
    let before : runs e w' ≡ runs e w = ap as_number q.running in
    let now = runs-enter e d w' (omega (arith, h, q.kept)) in
    let busy = busy_runs e d w (ground (arith, n)) in
    record {
      running = elim (Bool-cases (d == e)) [
        | inl s ↦
            let now' : runs e (enter d w') ≡ 1 = rw s at now in
            let busy' : 1 ≡ runs e w = rw s at busy in omega (arith, now', busy')
        | inr s ↦
            let now' : runs e (enter d w') ≡ runs e w' = rw s at now in omega (arith, now', before)
      ];
      marks = omega (arith, q.starts_same, q.ends_same);
      kept = length-set w'.executors d (record (executor_at d w') { running = true }) ∙ q.kept;
    }

-- A loop of `drain()` that a callback begins.
drained-Balance :
    (e d : ℕ) (w : World) (prev : Option ℕ) (owned : Bool)
    → e < length w.executors
    → not (executor_at d w).running ≡ owned
    → Balance e 0 0 w (enter d w) (drain d owned prev none ∷ [])
drained-Balance e d w prev owned h n =
    let b = captured-Balance e d w w prev [] owned h (Quiet-refl e w) n in
    record { running = b.running; marks = b.marks; kept = b.kept }

run_body-Balance :
    (e : ℕ) (b : Body) (w : World)
    → e < length w.executors
    → Balance e 0 0 w (run_body b w).0 (run_body b w).1
unfolding run_body executor_at
run_body-Balance e done w h = nothing-Balance e w w (Quiet-refl e w)
run_body-Balance e (run_soon d t b) w h =
    let q = submit-Quiet e d t w in
    below-Balance e 0 0 w (submit d t w) _ _ (body b) q
      (wake_up-Balance e d (submit d t w) (omega (arith, h, q.kept))) refl refl
run_body-Balance e (schedule d t b) w h = Quiet-Balance e w _ b (submit-Quiet e d t w)
run_body-Balance e (wake d b) w h =
    below-Balance e 0 0 w w _ _ (body b) (Quiet-refl e w) (wake_up-Balance e d w h) refl refl
run_body-Balance e (drain_now d b) w h =
    below-Balance e 0 0 w w _ _ (body b) (Quiet-refl e w)
      (drained-Balance e d w w.current (not (executor_at d w).running) h refl) refl refl
run_body-Balance e (capture d f b) w h =
    let q = set_ready-Quiet e d [] w in
    record {
      running = rw q.running (omega arith);
      marks = omega (arith, q.starts_same, q.ends_same);
      kept = q.kept;
    }

leave-Balance :
    (e d : ℕ) (owned : Bool) (prev : Option ℕ) (w : World)
    → e < length w.executors
    → (if owned && (d == e) then 1 else 0) ≤ runs e w
    → Balance e (if owned && (d == e) then 1 else 0) 0 w (leave d owned prev w) []
unfolding leave executor_at put_executor
leave-Balance e d true prev w h r = stopped-Balance e d w prev h r
leave-Balance e d false prev w h r =
    nothing-Balance e w (record w { current = prev })
      record { running = refl; starts_same = refl; ends_same = refl; kept = refl }

next_ready-Balance :
    (p : Program) (e d : ℕ) (owned : Bool) (prev : Option ℕ) (ts : List Task) (w : World)
    → e < length w.executors
    → (if owned && (d == e) then 1 else 0) ≤ runs e w
    → let c = next_ready p d owned prev ts w in
      Balance e (if owned && (d == e) then 1 else 0) 0 w c.0 c.1
unfolding next_ready set_ready put_executor executor_at call
next_ready-Balance p e d owned prev [] w h r = leave-Balance e d owned prev w h r
next_ready-Balance p e d owned prev (run_once x ∷ ts) w h r =
    let q = set_ready-Quiet e d ts w in
    below-Balance e (if owned && (d == e) then 1 else 0) 0 w (set_ready d ts w) _ _
      (drain d owned prev none) q
      (call-Balance p e (run_once x) (set_ready d ts w) (omega (arith, h, q.kept))) refl refl
next_ready-Balance p e d owned prev (task l ∷ ts) w h r =
    let q = set_ready-Quiet e d ts w in
    let before : runs e (set_ready d ts w) ≡ runs e w = ap as_number q.running in
    record {
      running = omega (arith, before);
      marks =
          omega (
            arith,
            starts-append e w.log (started d l ∷ []),
            ends-append e w.log (started d l ∷ []),
          );
      kept = q.kept;
    }

pub take_on-Balance :
    (p : Program) (e : ℕ) (f : Frame) (w : World)
    → e < length w.executors
    → drains_of e f ≤ runs e w
    → let c = take_on p f w in Balance e (drains_of e f) (calls_of e f) w c.0 c.1
unfolding take_on executor_at
take_on-Balance p e (body b) w h r = run_body-Balance e b w h
take_on-Balance p e (captured d old) w h r =
    captured-Balance e d w (set_ready d old w) w.current (executor_at d w).ready
      (not (executor_at d w).running) h (set_ready-Quiet e d old w) refl
take_on-Balance p e (drain d owned prev (some l)) w h r = record {
  running = omega arith;
  marks =
      omega (arith, starts-append e w.log (ended d l ∷ []), ends-append e w.log (ended d l ∷ []));
  kept = refl;
}
take_on-Balance p e (drain d owned prev none) w h r =
    next_ready-Balance p e d owned prev (executor_at d w).ready w h r
take_on-Balance p e (drain_captured d [] owned prev) w h r = leave-Balance e d owned prev w h r
take_on-Balance p e (drain_captured d (t ∷ ts) owned prev) w h r =
    below-Balance e _ 0 w w _ _ (drain_captured d ts owned prev) (Quiet-refl e w)
      (call-Balance p e t w h) refl refl
