-- ===== src/Executor/Entries.antt =====
-- What is noted when an executor begins to run its queue (Executor.h).
use hf_qcorral.Prelude.{
  ℕ, ◌<◌, ◌≡◌, refl, sym, ap, subst, inl, inr, ◌∙◌, Bool, true, false, Bool-cases, Option, none,
  List, [], ◌∷◌, ◌++◌, ◌==◌, if◌then◌else◌, if_cases, length, length-set, arith,
}
use hf_qcorral.Executor.{
  Program, Task, task, run_once, Body, Executor, World, Frame, body, drain, executor_at,
  put_executor, enter, call_once, is_current, wake_up, call,
}
use hf_qcorral.Executor.Running.{
  drains_of, calls_of, drains-append, calls-append, runs, put_same, put_other, Balance, Quiet,
  Quiet-refl, put-Quiet, defer_to-Quiet,
}

abbrev pub as_number : Bool → ℕ
as_number b = if b then 1 else 0

pub runs-put_executor :
    (e d : ℕ) (x : Executor) (w : World)
    → e < length w.executors
    → runs e (put_executor d x w) ≡ (if d == e then as_number x.running else runs e w)
runs-put_executor e d x w h = elim (Bool-cases (d == e)) [
  | inl s ↦
      let same : d ≡ e = ground (arith, s) in
      rw s (
        subst (λ v. runs e (put_executor v x w) ≡ as_number x.running) (sym same)
          (ap (λ (y : Executor). as_number y.running) (put_same e x w h)))
  | inr n ↦ rw n (ap (λ (y : Executor). as_number y.running) (put_other e d x w n))
]

pub runs-enter :
    (e d : ℕ) (w : World)
    → e < length w.executors
    → runs e (enter d w) ≡ (if d == e then 1 else runs e w)
unfolding enter executor_at
runs-enter e d w h = runs-put_executor e d (record (executor_at d w) { running = true }) w h

-- The executor that is not running, if it is the one that is looked at.
idle_runs :
    (e d : ℕ) (w : World)
    → (executor_at d w).running ≡ false
    → (if d == e then 0 else runs e w) ≡ runs e w
idle_runs e d w h = elim (Bool-cases (d == e)) [
  | inl s ↦
      let same : d ≡ e = ground (arith, s) in rw s (subst (λ v. 0 ≡ runs v w) same (rw h refl))
  | inr n ↦ rw n refl
]

-- The executor that is running, if it is the one that is looked at.
pub busy_runs :
    (e d : ℕ) (w : World)
    → (executor_at d w).running ≡ true
    → (if d == e then 1 else runs e w) ≡ runs e w
busy_runs e d w h = elim (Bool-cases (d == e)) [
  | inl s ↦
      let same : d ≡ e = ground (arith, s) in rw s (subst (λ v. 1 ≡ runs v w) same (rw h refl))
  | inr n ↦ rw n refl
]

pub Quiet-Balance :
    (e : ℕ) (w w' : World) (b : Body) → Quiet e w w' → Balance e 0 0 w w' (body b ∷ [])
Quiet-Balance e w w' b q = record {
  running = rw q.running (omega arith);
  marks = omega (arith, q.starts_same, q.ends_same);
  kept = q.kept;
}

pub nothing-Balance : (e : ℕ) (w w' : World) → Quiet e w w' → Balance e 0 0 w w' []
nothing-Balance e w w' q = record {
  running = rw q.running (omega arith);
  marks = omega (arith, q.starts_same, q.ends_same);
  kept = q.kept;
}

-- A drain that begins, of an executor that was not running.
pub entered-Balance :
    (e d : ℕ) (w w' : World) (prev : Option ℕ)
    → e < length w.executors
    → Quiet e w w'
    → (executor_at d w).running ≡ false
    → Balance e 0 0 w (enter d w') (drain d true prev none ∷ [])
unfolding enter put_executor
entered-Balance e d w w' prev h q n =
    let before : runs e w' ≡ runs e w = ap as_number q.running in
    let now = runs-enter e d w' (omega (arith, h, q.kept)) in
    let idle = idle_runs e d w n in
    record {
      running = elim (Bool-cases (d == e)) [
        | inl s ↦
            let now' : runs e (enter d w') ≡ 1 = rw s at now in
            let idle' : 0 ≡ runs e w = rw s at idle in rw s (omega (arith, now', idle'))
        | inr s ↦
            let now' : runs e (enter d w') ≡ runs e w' = rw s at now in
            rw s (omega (arith, now', before))
      ];
      marks = omega (arith, q.starts_same, q.ends_same);
      kept = length-set w'.executors d (record (executor_at d w') { running = true }) ∙ q.kept;
    }

call_once-Balance :
    (e d : ℕ) (w : World)
    → e < length w.executors
    → Balance e 0 0 w (call_once d w).0 (call_once d w).1
unfolding call_once
call_once-Balance e d w h =
    let x = record (executor_at d w) { scheduled = false } in
    let w' = put_executor d x w in
    let q = put-Quiet e d x w refl in
    if_cases (λ (c : World × List Frame). Balance e 0 0 w c.0 c.1) (executor_at d w).running _ _
      (λ _. nothing-Balance e w w' q) (λ n. entered-Balance e d w w' w.current h q n)

pub wake_up-Balance :
    (e d : ℕ) (w : World) → e < length w.executors → Balance e 0 0 w (wake_up d w).0 (wake_up d w).1
unfolding wake_up
wake_up-Balance e d w h =
    if_cases (λ (c : World × List Frame). Balance e 0 0 w c.0 c.1) (executor_at d w).running _ _
      (λ _. nothing-Balance e w w (Quiet-refl e w))
      (λ _.
        if_cases (λ (c : World × List Frame). Balance e 0 0 w c.0 c.1) (is_current w.current d w) _
          _ (λ _. nothing-Balance e w _ (defer_to-Quiet e d w.current w))
          (λ _. call_once-Balance e d w h))

pub call-Balance :
    (p : Program) (e : ℕ) (t : Task) (w : World)
    → e < length w.executors
    → Balance e 0 0 w (call p t w).0 (call p t w).1
unfolding call
call-Balance p e (task l) w h = Quiet-Balance e w w (p l) (Quiet-refl e w)
call-Balance p e (run_once d) w h = call_once-Balance e d w h

-- A frame that is put below the new ones.
pub below-Balance :
    (e held busy : ℕ) (u v w : World) (fs : List Frame) (f : Frame)
    → Quiet e u v
    → Balance e 0 0 v w fs
    → drains_of e f ≡ held
    → calls_of e f ≡ busy
    → Balance e held busy u w (fs ++ f ∷ [])
below-Balance e held busy u v w fs f q b d c = record {
  running =
      let before : runs e v ≡ runs e u = ap as_number q.running in
      omega (arith, before, b.running, d, drains-append e fs (f ∷ []));
  marks = omega (arith, b.marks, q.starts_same, q.ends_same, c, calls-append e fs (f ∷ []));
  kept = b.kept ∙ q.kept;
}
