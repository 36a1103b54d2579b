-- ===== src/Promise/Asserted.antt =====
-- What a task does never fails an assertion of the checker (Promise.h, utility.h).
use hf_qcorral.Prelude.{
  zero, suc, ◌≤◌, ◌≡◌, refl, ap, subst, inl, inr, Bool, true, false, Bool-cases, if◌then◌else◌,
  if_cases, arith,
}
use hf_qcorral.Awaitable.{Script}
use hf_qcorral.Promise.{
  Activity, ready, running, suspended, OnResumed, resume, resume_after_cancel, nothing, Parent,
  unset, present, gone, Promise, requested, propagate_cancel, do_resume, resume_cancelled, call,
  start, do_resume_after_cancel, run_step, cancel, finish,
}
use hf_qcorral.Promise.Protocol.{
  TaskEvent, starts, runs, completed, is_cancelled, ends, co_awaits, is_possible, IsCreated,
  IsAlive, IsOver, Life, steps,
}
use hf_qcorral.Promise.Protocol
use hf_qcorral.Checker.{
  AwaitableStateChecker, reset, may_reset, ready_returned, early_cancel_returned,
  about_to_set_executor, about_to_suspend, suspend_threw, about_to_cancel, cancel_returned,
  must_resume_returned, about_to_resume,
}
use hf_qcorral.Checker
use hf_qcorral.Checker.Moves.{
  IsAt, reset-IsAt, ready_returned-IsAt, early_cancel_returned-IsAt, ready_pending-IsAt,
  resumed-IsAt, about_to_cancel-IsAt, about_to_resume-IsAt,
}
use hf_qcorral.Promise.Checked.{
  proxy_handle, Checked, note_call, handle_resumed, awaitee_resumes, cancel_at, hook_checked,
  await_checked, run_checked, complete_at,
}
use hf_qcorral.Promise.Guarded.{
  Fits, IsGuarded, resume_one, resume_other, forward_cancel-IsGuarded, suspend_checked-IsGuarded,
}

hook_requested :
    (aw : Script) (s : Checked)
    → s.promise.parent ≡ present
    → requested s.promise.activity ≡ true
    → s.asked ≡ true
    → IsAt Checker.initial s.checker
    → IsGuarded (hook_checked aw s)
unfolding hook_checked propagate_cancel
hook_requested aw s e r q i = rw r (
    if_cases IsGuarded aw.early_cancel _ _
      (λ _.
        let j = early_cancel_returned-IsAt true s.checker i in (ap may_reset j.state, j.no_fault))
      (λ _.
        let pending = early_cancel_returned-IsAt false s.checker i in
        let c = early_cancel_returned false s.checker in
        let p = record s.promise { activity = suspended aw; on_resume = resume_after_cancel } in
        if_cases IsGuarded aw.is_ready _ _
          (λ _.
            resume_other
              (record s { promise = p; checker = ready_returned true c; in_await = true }) aw e refl
              refl refl q (ready_pending-IsAt true c pending))
          (λ _.
            suspend_checked-IsGuarded aw true
              (record s { promise = p; checker = ready_returned false c; in_await = true }) e refl
              refl refl (λ _. q) (ready_pending-IsAt false c pending))))

hook_plain :
    (aw : Script) (s : Checked)
    → s.promise.parent ≡ present
    → requested s.promise.activity ≡ false
    → IsAt Checker.not_ready s.checker
    → IsGuarded (hook_checked aw s)
unfolding hook_checked
hook_plain aw s e r i =
    let p = record s.promise { activity = suspended aw; on_resume = resume } in
    rw r (
      suspend_checked-IsGuarded aw false (record s { promise = p; in_await = true }) e refl refl
        refl (λ x. cc x) i)

pub await-IsGuarded :
    (aw : Script) (s : Checked) (r : Bool)
    → s.promise.parent ≡ present
    → s.promise.activity ≡ running r
    → IsGuarded s
    → IsGuarded (await_checked aw s)
unfolding await_checked
await-IsGuarded aw s r e a g =
    let (m, f, w, i) : Fits present (running r) s.promise.on_resume s.in_await s.asked s.checker =
      subst (λ v. Fits v (running r) s.promise.on_resume s.in_await s.asked s.checker) e
        (subst (λ v. Fits s.promise.parent v s.promise.on_resume s.in_await s.asked s.checker) a
          g) in
    let j = reset-IsAt s.checker f m in
    let c = reset s.checker in
    if_cases IsGuarded (requested s.promise.activity) _ _
      (λ q.
        let q' : r ≡ true = rw a at q in
        hook_requested aw (record s { checker = c }) e q (ground (arith, q', i)) j)
      (λ n.
        if_cases IsGuarded aw.is_ready _ _
          (λ _.
            let k =
              about_to_resume-IsAt (ready_returned true c) (ready_returned-IsAt true c j).no_fault
                (ap Checker.has_result (ready_returned-IsAt true c j).state) in
            rw (e, a) (ap may_reset k.state, k.no_fault, w, i))
          (λ _.
            hook_plain aw (record s { checker = ready_returned false c }) e n
              (ready_returned-IsAt false c j)))

-- What `IsGuarded` says, by what the task is known to be.
pub guarded_as :
    (s : Checked) (x : Parent) (a : Activity)
    → s.promise.parent ≡ x
    → s.promise.activity ≡ a
    → IsGuarded s
    → Fits x a s.promise.on_resume s.in_await s.asked s.checker
guarded_as s x a e d g =
    subst (λ v. Fits v a s.promise.on_resume s.in_await s.asked s.checker) e
      (subst (λ v. Fits s.promise.parent v s.promise.on_resume s.in_await s.asked s.checker) d g)

cancel_suspended :
    (s : Checked) (aw : Script) (f : OnResumed)
    → s.promise.parent ≡ present
    → s.promise.activity ≡ suspended aw
    → s.asked ≡ false
    → Fits present (suspended aw) f s.in_await s.asked s.checker
    → IsGuarded (cancel_at (suspended aw) (record s { asked = true }))
unfolding cancel_at
cancel_suspended s aw resume e a n (w, h) =
    let p = record s.promise { on_resume = resume_after_cancel } in
    forward_cancel-IsGuarded aw.on_cancel
      (record s { promise = p; checker = about_to_cancel proxy_handle s.checker; asked = true }) aw
      e a refl w refl (about_to_cancel-IsAt proxy_handle s.checker h refl)
cancel_suspended s aw resume_after_cancel e a n (w, i, q) = cc (n, q)
cancel_suspended s aw nothing e a n g = cc g

pub cancel_at-IsGuarded :
    (a : Activity) (f : OnResumed) (x : Parent) (s : Checked)
    → s.promise.activity ≡ a
    → s.promise.on_resume ≡ f
    → s.promise.parent ≡ x
    → s.asked ≡ false
    → (elim x [ gone ↦ false | _ ↦ true ]) ≡ true
    → Fits x a f s.in_await s.asked s.checker
    → IsGuarded (cancel_at a (record s { asked = true }))
unfolding cancel_at cancel hf_qcorral.Promise.cancel_at
cancel_at-IsGuarded a f gone s e h p n t g = cc t
cancel_at-IsGuarded (ready r) f unset s e h p n t (i, w, _) =
    rw (e, hf_qcorral.Promise.cancel_at, p) (i, w, refl)
cancel_at-IsGuarded (running r) f unset s e h p n t g = cc g
cancel_at-IsGuarded (suspended aw) f unset s e h p n t g = cc g
cancel_at-IsGuarded (ready r) resume present s e h p n t (i, w, _) =
    rw (e, hf_qcorral.Promise.cancel_at, p, h) (i, w, refl)
cancel_at-IsGuarded (ready r) nothing present s e h p n t (i, _) =
    rw (e, hf_qcorral.Promise.cancel_at, p, h) (i, refl)
cancel_at-IsGuarded (ready r) resume_after_cancel present s e h p n t g = cc g
cancel_at-IsGuarded (running r) f present s e h p n t (m, d, w, _) =
    rw (e, hf_qcorral.Promise.cancel_at, p) (m, d, w, refl)
cancel_at-IsGuarded (suspended aw) f present s e h p n t g = cancel_suspended s aw f p e n g

pub run_at :
    (a : Activity) (f : OnResumed) (s : Checked)
    → s.promise.parent ≡ present
    → s.promise.activity ≡ a
    → suc zero ≤ steps a f
    → Fits present a f s.in_await s.asked s.checker
    → IsGuarded (run_checked s)
unfolding run_checked run_step
run_at (ready r) nothing s p a q (i, j) = elim (Bool-cases s.in_await) [
  | inl w ↦
      let i' : IsAt Checker.ready s.checker =
        subst (λ b. IsAt (if b then Checker.ready else Checker.initial) s.checker) w i in
      let k = about_to_resume-IsAt s.checker i'.no_fault (ap Checker.has_result i'.state) in
      rw (w, p, a) (ap may_reset k.state, k.no_fault, refl, j)
  | inr w ↦
      let i' : IsAt Checker.initial s.checker =
        subst (λ b. IsAt (if b then Checker.ready else Checker.initial) s.checker) w i in
      rw (w, p, a) (ap may_reset i'.state, i'.no_fault, refl, j)
]
run_at (ready r) resume s p a q g = absurd (omega (arith, q))
run_at (ready r) resume_after_cancel s p a q g = absurd (omega (arith, q))
run_at (running r) f s p a q g = absurd (omega (arith, q))
run_at (suspended aw) f s p a q g = absurd (omega (arith, q))

pub complete_at-IsGuarded :
    (a : Activity) (f : OnResumed) (s : Checked)
    → s.promise.parent ≡ present
    → s.promise.activity ≡ a
    → s.promise.on_resume ≡ f
    → Protocol.is_running a ≡ false
    → Fits present a f s.in_await s.asked s.checker
    → IsGuarded (complete_at a s)
unfolding complete_at awaitee_resumes handle_resumed note_call hf_qcorral.Promise.resumed call
    do_resume
complete_at-IsGuarded (running r) f s p a h n g = cc n
complete_at-IsGuarded (ready r) resume s p a h n (i, w, j) = rw (h, call, note_call, p, a, w) (i, j)
complete_at-IsGuarded (ready r) nothing s p a h n g = rw (h, call, note_call, p, a) g
complete_at-IsGuarded (ready r) resume_after_cancel s p a h n g = cc g
complete_at-IsGuarded (suspended aw) resume s p a h n (w, i) =
    resume_one (record s { checker = hf_qcorral.Checker.resumed s.checker }) aw p a h w
      (resumed-IsAt Checker.running Checker.ready s.checker i.at refl)
complete_at-IsGuarded (suspended aw) resume_after_cancel s p a h n (w, i, q) =
    resume_other (record s { checker = hf_qcorral.Checker.resumed s.checker }) aw p a h w q
      (resumed-IsAt Checker.cancelling Checker.ready_after_cancel s.checker i refl)
complete_at-IsGuarded (suspended aw) nothing s p a h n g = cc g

pub start_at :
    (a : Activity) (s : Checked)
    → s.promise.activity ≡ a
    → Fits unset a s.promise.on_resume s.in_await s.asked s.checker
    → IsGuarded (record s { promise = start s.promise })
unfolding start
start_at (ready r) s a g = rw a g
start_at (running r) s a g = cc g
start_at (suspended aw) s a g = cc g
