-- ===== src/Promise/Erased.antt =====
-- The checker does not change what a task does (Promise.h, utility.h).
use hf_qcorral.Prelude.{
  ◌≡◌, refl, sym, ap, ◌∙◌, inl, inr, Bool, true, false, not, ◌&&◌, Bool-cases, arith, if_cases,
}
use hf_qcorral.Awaitable.{
  OnSuspend, keeps, resumes, throws, OnCancel, confirms, defers, completes, Script,
}
use hf_qcorral.Promise.{
  Activity, ready, running, suspended, OnResumed, resume, resume_after_cancel, Promise, requested,
  propagate_cancel, start, run_step, suspend, hook_await_suspend, await, cancel, finish,
}
use hf_qcorral.Promise.Protocol.{TaskEvent, starts, runs, completed, is_cancelled, ends, co_awaits}
use hf_qcorral.Promise.Protocol
use hf_qcorral.Promise
use hf_qcorral.Checker.{reset, ready_returned}
use hf_qcorral.Promise.Checked.{
  Checked, handle_resumed, awaitee_resumes, forward_cancel, cancel_at, cancel_checked, suspend_at,
  suspend_checked, hook_checked, await_checked, run_checked, complete_at, apply_checked,
}

promise-run : (s : Checked) → (run_checked s).promise ≡ run_step s.promise
unfolding run_checked
promise-run s =
    if_cases (λ (t : Checked). t.promise ≡ run_step s.promise) s.in_await _ _ (λ _. refl)
      (λ _. refl)

promise-complete_at :
    (a : Activity) (s : Checked) → (complete_at a s).promise ≡ Promise.resumed s.promise
unfolding complete_at awaitee_resumes handle_resumed
promise-complete_at (ready r) s = refl
promise-complete_at (running r) s = refl
promise-complete_at (suspended aw) s = refl

promise-forward :
    (o : OnCancel) (s : Checked)
    → s.promise.on_resume ≡ resume_after_cancel
    → (forward_cancel o s).promise ≡ Promise.forward_cancel o s.promise
unfolding forward_cancel Promise.forward_cancel awaitee_resumes handle_resumed Promise.resumed
    Promise.call
promise-forward confirms s e = refl
promise-forward defers s e = refl
promise-forward completes s e = rw (e, Promise.call) refl

promise-cancel :
    (a : Activity) (s : Checked)
    → s.promise.activity ≡ a
    → (cancel_at a s).promise ≡ cancel s.promise
unfolding cancel_at cancel Promise.cancel_at
promise-cancel (ready r) s e = refl
promise-cancel (running r) s e = refl
promise-cancel (suspended aw) s e = rw (e, Promise.cancel_at) (promise-forward aw.on_cancel _ refl)

promise-suspend :
    (aw : Script) (q : Bool) (s : Checked)
    → (suspend_checked aw q s).promise ≡ suspend aw.on_suspend q s.promise
unfolding suspend_checked suspend
promise-suspend aw q s = ends_at aw.on_suspend _
  where
    ends_at : (o : OnSuspend) (t : Checked) → (suspend_at o q t).promise ≡ suspend o q t.promise
    ends_at keeps t = refl
    ends_at resumes t = refl
    ends_at (throws ex) t = refl

promise-hook :
    (aw : Script) (s : Checked) → (hook_checked aw s).promise ≡ hook_await_suspend aw s.promise
unfolding hook_checked hook_await_suspend handle_resumed
promise-hook aw s = elim (Bool-cases (requested s.promise.activity)) [
  | inl r ↦ elim (Bool-cases aw.early_cancel) [
    | inl c ↦ rw (r, c) refl
    | inr c ↦ elim (Bool-cases aw.is_ready) [
      | inl i ↦ rw (r, c, i) refl
      | inr i ↦ rw (r, c, i) (promise-suspend aw true _)
    ]
  ]
  | inr r ↦ rw r (promise-suspend aw false _)
]

await_hooks :
    (aw : Script) (p : Promise)
    → (not (requested p.activity) && aw.is_ready) ≡ false
    → await aw p ≡ hook_await_suspend aw p
unfolding await
await_hooks aw p h =
    if_cases (λ q. q ≡ hook_await_suspend aw p) (not (requested p.activity) && aw.is_ready) p
      (hook_await_suspend aw p) (λ t. cc (h, t)) (λ _. refl)

promise-await : (aw : Script) (s : Checked) → (await_checked aw s).promise ≡ await aw s.promise
unfolding await_checked await
promise-await aw s =
    let s' = record s { checker = reset s.checker } in
    if_cases (λ (t : Checked). t.promise ≡ await aw s.promise) (requested s.promise.activity) _ _
      (λ r. promise-hook aw s' ∙ sym (await_hooks aw s.promise (ap (λ b. not b && aw.is_ready) r)))
      (λ n.
        if_cases (λ (t : Checked). t.promise ≡ await aw s.promise) aw.is_ready _ _
          (λ i.
            if_cases (λ q. s.promise ≡ q) (not (requested s.promise.activity) && aw.is_ready)
              s.promise (hook_await_suspend aw s.promise) (λ _. refl)
              (λ f. absurd (ground (arith, f, n, i))))
          (λ i.
            promise-hook aw (record s' { checker = ready_returned false s'.checker })
            ∙ sym (await_hooks aw s.promise (ground (arith, i)))))

-- Whatever a task does, the checker only looks on: what it leads to for the task and its parent is
-- what it leads to without a checker.
pub promise-apply_checked :
    (e : TaskEvent) (s : Checked) → (apply_checked e s).promise ≡ Protocol.apply e s.promise
unfolding apply_checked Protocol.apply cancel_checked Promise.resumed
promise-apply_checked starts s = refl
promise-apply_checked runs s = promise-run s
promise-apply_checked completed s = promise-complete_at s.promise.activity s
promise-apply_checked is_cancelled s =
    promise-cancel s.promise.activity (record s { asked = true }) refl
promise-apply_checked ends s = refl
promise-apply_checked (co_awaits aw) s = promise-await aw s
