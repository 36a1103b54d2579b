-- ===== src/Executor/Nested.antt =====
-- A second submission to an executor that is waiting for its turn (Executor.h).
use hf_qcorral.Prelude.{
  ℕ, ◌<◌, ◌≡◌, refl, sym, ap, subst, ◌∙◌, true, false, none, some, List, [], ◌∷◌, ◌++◌, ◌==◌,
  length, arith,
}
use hf_qcorral.Executor.{
  Program, Task, run_once, Body, run_soon, Executor, World, Frame, body, drain, executor_at,
  put_executor, submit, enter, defer, wake_up, run_body, take_on, step,
}
use hf_qcorral.Executor.Submitted.{
  submit_same, submit_other, submit_current, length-submit, submit_fault, length-put_executor,
  wake_up_defers, wake_up_enters, defer_same, defer_ready, defer_current, length-defer, defer_fault,
}
use hf_qcorral.Executor.Running.{put_same}

-- An executor that can be deferred to another, whose callback is under way.
pub record CanDefer (c e : ℕ) (w : World) : Type 0 where
  pub others : ¬ (c ≡ e)
  pub here : e < length w.executors
  pub there : c < length w.executors
  pub current : w.current ≡ some c
  pub called : (executor_at c w).running ≡ true
  pub idle : (executor_at e w).running ≡ false
  pub unscheduled : (executor_at e w).scheduled ≡ false
  pub cooperates : (executor_at c w).event_loop ≡ (executor_at e w).event_loop

first_defers :
    (c e : ℕ) (t : Task) (w : World)
    → CanDefer c e w
    → wake_up e (submit e t w) ≡ (defer c e (submit e t w), [])
first_defers c e t w h =
    let at = submit_same e t w h.here in
    let other = submit_other c e t w (ground (arith, h.others)) in
    wake_up_defers c e (submit e t w) (submit_current e t w ∙ h.current)
      (ap (λ (x : Executor). x.running) at ∙ h.idle)
      (ap (λ (x : Executor). x.scheduled) at ∙ h.unscheduled)
      (rw (at, other, h.cooperates) (ground arith))

deferred_at :
    (c e : ℕ) (t : Task) (w : World)
    → CanDefer c e w
    → executor_at e (defer c e (submit e t w))
      ≡ record (executor_at e w) { ready = (executor_at e w).ready ++ t ∷ []; scheduled = true }
deferred_at c e t w h =
    defer_same c e (submit e t w) (ground (arith, h.others))
      (omega (arith, h.here, length-submit e t w))
    ∙ ap (λ (x : Executor). record x { scheduled = true }) (submit_same e t w h.here)

second_at :
    (c e : ℕ) (t u : Task) (w : World)
    → CanDefer c e w
    → executor_at e (submit e u (defer c e (submit e t w))) ≡ record (executor_at e w) {
      ready = ((executor_at e w).ready ++ t ∷ []) ++ u ∷ [];
      scheduled = true;
    }
second_at c e t u w h =
    submit_same e u (defer c e (submit e t w))
      (omega (arith, h.here, length-submit e t w, length-defer c e (submit e t w)))
    ∙ ap (λ (x : Executor). record x { ready = x.ready ++ u ∷ [] }) (deferred_at c e t w h)

second_enters :
    (c e : ℕ) (t u : Task) (w : World)
    → CanDefer c e w
    → let w' = submit e u (defer c e (submit e t w)) in
      wake_up e w' ≡ (
        enter e (put_executor e (record (executor_at e w') { scheduled = false }) w'),
        drain e true (some c) none ∷ [],
      )
second_enters c e t u w h =
    let w' = submit e u (defer c e (submit e t w)) in
    let at = second_at c e t u w h in
    wake_up_enters e (some c) w'
      (submit_current e u (defer c e (submit e t w))
        ∙ defer_current c e (submit e t w)
        ∙ submit_current e t w
        ∙ h.current)
      (ap (λ (x : Executor). x.running) at ∙ h.idle) (ap (λ (x : Executor). x.scheduled) at)

entered_ready :
    (e : ℕ) (w : World)
    → e < length w.executors
    → let w' = put_executor e (record (executor_at e w) { scheduled = false }) w in
      (executor_at e (enter e w')).ready ≡ (executor_at e w).ready
unfolding enter executor_at
entered_ready e w h =
    let y = record (executor_at e w) { scheduled = false } in
    let w' = put_executor e y w in
    ap (λ (x : Executor). x.ready)
      (put_same e (record (executor_at e w') { running = true }) w'
        (subst (λ n. e < n) (sym (length-put_executor e y w)) h))
    ∙ ap (λ (x : Executor). x.ready) (put_same e y w h)

-- When a callback of executor `c`, which runs, submits two functions to another executor, `e`, which is neither
-- running nor waiting for its turn and has the event loop of `c`, then the first submission only
-- has `c` call `e` later; but the second one begins the loop of `e` at once, with all that is
-- in its queue, the two functions last, before the callback goes on.
pub second_nests :
    (p : Program) (c e : ℕ) (t u : Task) (b : Body) (w : World) (fs : List Frame)
    → CanDefer c e w
    → let (w1, fs1) = step p (w, body (run_soon e t (run_soon e u b)) ∷ fs) in
      let (w2, fs2) = step p (w1, fs1) in
      (fs1 ≡ body (run_soon e u b) ∷ fs)
      × ((executor_at c w1).ready ≡ (executor_at c w).ready ++ run_once e ∷ [])
      × (fs2 ≡ drain e true (some c) none ∷ body b ∷ fs)
      × (w2.current ≡ some e)
      × ((executor_at e w2).ready ≡ ((executor_at e w).ready ++ t ∷ []) ++ u ∷ [])
      × (w2.fault ≡ w.fault)
unfolding step take_on run_body enter put_executor
second_nests p c e t u b w fs h =
    let w1 = submit e t w in
    let w2 = defer c e w1 in
    let w3 = submit e u w2 in
    let n : (e == c) ≡ false = ground (arith, h.others) in
    let there = subst (λ l. c < l) (sym (length-submit e t w)) h.there in
    let here =
      subst (λ l. e < l) (sym (length-submit e u w2 ∙ length-defer c e w1 ∙ length-submit e t w))
        h.here in
    let deferred =
      defer_ready c e w1 n there
      ∙ ap (λ (x : Executor). x.ready ++ run_once e ∷ []) (submit_other c e t w n) in
    let ready = entered_ready e w3 here ∙ ap (λ (x : Executor). x.ready) (second_at c e t u w h) in
    let called = ap (λ (x : Executor). x.running) (submit_other c e t w n) ∙ h.called in
    let fault = submit_fault e u w2 ∙ defer_fault c e w1 n there called ∙ submit_fault e t w in
    rw (first_defers c e t w h, second_enters c e t u w h)
      (refl, deferred, refl, refl, ready, fault)
