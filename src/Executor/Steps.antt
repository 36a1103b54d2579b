-- ===== src/Executor/Steps.antt =====
-- What holds of the executors after every step of a run (Executor.h).
use hf_qcorral.Prelude.{
  ℕ, zero, suc, ◌+◌, ◌≤◌, ◌<◌, ◌≡◌, refl, false, none, List, [], ◌∷◌, length, ◌∙◌, ap, get_elem?,
  arith,
}
use hf_qcorral.Executor.{
  Program, Body, Executor, make, executor_of, executor_at, World, Frame, body, take_on, step, run,
}
use hf_qcorral.Executor.Running.{
  starts, ends, drains, calls, drains-append, calls-append, calls-le-drains, reentries, runs,
}
use hf_qcorral.Executor.Alone.{take_on-Balance, runs-le-one}

-- An executor runs as its drains say, and its log as the calls say that are under way.
pub record InStep (e : ℕ) (w : World) (fs : List Frame) : Type 0 where
  pub here : e < length w.executors
  pub running : runs e w ≡ drains e fs
  pub marks : starts e w.log ≡ ends e w.log + calls e fs

step-InStep :
    (p : Program) (e : ℕ) (w : World) (fs : List Frame)
    → InStep e w fs
    → let c = step p (w, fs) in InStep e c.0 c.1
unfolding step
step-InStep p e w [] i = i
step-InStep p e w (f ∷ fs) i =
    let b = take_on-Balance p e f w i.here (omega (arith, i.running)) in
    record {
      here = omega (arith, i.here, b.kept);
      running = omega (arith, i.running, b.running, drains-append e (take_on p f w).1 fs);
      marks = omega (arith, i.marks, b.marks, calls-append e (take_on p f w).1 fs);
    }

pub run-InStep :
    (p : Program) (e fuel : ℕ) (w : World) (fs : List Frame)
    → InStep e w fs
    → let c = run p fuel (w, fs) in InStep e c.0 c.1
unfolding run
run-InStep p e zero w fs i = i
run-InStep p e (suc fuel) w fs i =
    let c = step p (w, fs) in run-InStep p e fuel c.0 c.1 (step-InStep p e w fs i)

-- The executors of a thread as they are made, one for each event loop of the list.
abbrev pub made : List ℕ → List Executor
made [] = []
made (l ∷ ls) = make l ∷ made ls

abbrev pub fresh : List ℕ → World
fresh ls = record { executors = made ls; current = none; log = []; fault = false }

pub length-made : (ls : List ℕ) → length (made ls) ≡ length ls
length-made [] = refl
length-made (l ∷ ls) = ap suc (length-made ls)

made_idle : (ls : List ℕ) (e : ℕ) → (executor_of (get_elem? (made ls) e)).running ≡ false
unfolding executor_of make
made_idle [] e = refl
made_idle (l ∷ ls) zero = refl
made_idle (l ∷ ls) (suc e) = made_idle ls e

fresh-InStep : (ls : List ℕ) (b : Body) (e : ℕ) → e < length ls → InStep e (fresh ls) (body b ∷ [])
unfolding executor_at
fresh-InStep ls b e h = record {
  here = omega (arith, h, length-made ls);
  running = rw (made_idle ls e) refl;
  marks = refl;
}

-- On executors as they are made, whatever a callback does that the thread calls, and whatever the
-- callbacks do that this leads to (they may submit any callbacks again, capture, and call
-- other executors): at any time, the callbacks that an executor has taken from its queue and that
-- have not returned are one at most, and one more for each call of `drain()` under way that was made
-- while the executor was running; and when all has returned, as many have ended as have been
-- started, and no executor is left running.
pub run-alone :
    (p : Program) (ls : List ℕ) (b : Body) (e fuel : ℕ)
    → e < length ls
    → let (w, fs) = run p fuel (fresh ls, body b ∷ []) in
      (ends e w.log ≤ starts e w.log)
      × (starts e w.log ≤ ends e w.log + 1 + reentries e fs)
      × (fs ≡ [] → (starts e w.log ≡ ends e w.log) × ((executor_at e w).running ≡ false))
run-alone p ls b e fuel h =
    let (w, fs) = run p fuel (fresh ls, body b ∷ []) in
    let i = run-InStep p e fuel (fresh ls) (body b ∷ []) (fresh-InStep ls b e h) in
    (
      omega (arith, i.marks),
      omega (arith, i.marks, i.running, calls-le-drains e fs, runs-le-one e w),
      λ z. (omega (arith, i.marks, none_left z), stopped e w (i.running ∙ ap (drains e) z)),
    )
  where
    none_left : {fs : List Frame} → fs ≡ [] → calls e fs ≡ 0
    none_left z = ap (calls e) z

    stopped : (e : ℕ) (w : World) → runs e w ≡ 0 → (executor_at e w).running ≡ false
    stopped e w z = ground (arith, z)
