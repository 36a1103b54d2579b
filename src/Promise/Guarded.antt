-- ===== src/Promise/Guarded.antt =====
-- No assertion of the checker fails in the life of a task (Promise.h, utility.h).
use hf_qcorral.Prelude.{
  ◌≡◌, refl, inl, inr, Bool, true, false, not, ◌&&◌, Bool-cases, if◌then◌else◌,
}
use hf_qcorral.Awaitable.{
  OnSuspend, keeps, resumes, throws, OnCancel, confirms, defers, completes, Script,
}
use hf_qcorral.Promise.{
  Activity, ready, running, suspended, OnResumed, resume, resume_after_cancel, nothing, Parent,
  unset, present, gone, Promise, requested, propagate_cancel, do_resume, resume_cancelled, call,
  start, do_resume_after_cancel, run_step, cancel, finish,
}
use hf_qcorral.Checker.{
  AwaitableStateChecker, reset, may_reset, ready_returned, early_cancel_returned,
  about_to_set_executor, about_to_suspend, suspend_threw, about_to_cancel, cancel_returned,
  must_resume_returned, about_to_resume,
}
use hf_qcorral.Checker
use hf_qcorral.Checker.Moves.{IsAt, Holds, suspend-Holds, resumed-IsAt}
use hf_qcorral.Promise.Checked.{
  proxy_handle, Checked, note_must_resume, note_call, handle_resumed, awaitee_resumes,
  forward_cancel, suspend_at, suspend_checked,
}

abbrev pub Implies : Bool → Bool → Type 0
Implies r q = (r && not q) ≡ false

abbrev Never : Type 0
Never = false ≡ true

-- What the checker shows of the task, by what is left of its life, whether it stands at a `co_await`
-- (`w`), and whether it was asked to cancel (`q`).
abbrev pub Fits : Parent → Activity → OnResumed → Bool → Bool → AwaitableStateChecker → Type 0
Fits gone a f w q c = (may_reset c.state ≡ true) × (c.fault ≡ false)
Fits unset (ready r) f w q c = IsAt Checker.initial c × (w ≡ false) × Implies r q
Fits unset (running r) f w q c = Never
Fits unset (suspended aw) f w q c = Never
Fits present (ready r) resume w q c = IsAt Checker.initial c × (w ≡ false) × Implies r q
Fits present (ready r) resume_after_cancel w q c = Never
Fits present (ready r) nothing w q c =
    IsAt (if w then Checker.ready else Checker.initial) c × Implies r q
Fits present (running r) f w q c =
    (may_reset c.state ≡ true) × (c.fault ≡ false) × (w ≡ false) × Implies r q
Fits present (suspended aw) resume w q c = (w ≡ true) × Holds proxy_handle Checker.running c
Fits present (suspended aw) resume_after_cancel w q c =
    (w ≡ true) × IsAt Checker.cancelling c × (q ≡ true)
Fits present (suspended aw) nothing w q c = Never

abbrev pub IsGuarded : Checked → Type 0
IsGuarded s =
    Fits s.promise.parent s.promise.activity s.promise.on_resume s.in_await s.asked s.checker

-- A suspended task whose handle is resumed.
pub resume_one :
    (s : Checked) (aw : Script)
    → s.promise.parent ≡ present
    → s.promise.activity ≡ suspended aw
    → s.promise.on_resume ≡ resume
    → s.in_await ≡ true
    → IsAt Checker.ready s.checker
    → IsGuarded (handle_resumed s)
unfolding handle_resumed note_call hf_qcorral.Promise.resumed call do_resume
resume_one s aw e a f w i =
    rw (f, note_call, call, e, a, w) (record { state = i.state; no_fault = i.no_fault }, refl)

pub resume_other :
    (s : Checked) (aw : Script)
    → s.promise.parent ≡ present
    → s.promise.activity ≡ suspended aw
    → s.promise.on_resume ≡ resume_after_cancel
    → s.in_await ≡ true
    → s.asked ≡ true
    → IsAt Checker.ready_after_cancel s.checker
    → IsGuarded (handle_resumed s)
unfolding handle_resumed note_call hf_qcorral.Promise.resumed call do_resume do_resume_after_cancel
    resume_cancelled propagate_cancel note_must_resume
resume_other s aw e a f w q i = elim (Bool-cases aw.must_resume) [
  | inl m ↦
      rw
        (
          f, note_call, call, do_resume_after_cancel, a, resume_cancelled, note_must_resume, m,
          do_resume, e, w, q,
        )
        (record { state = refl; no_fault = rw (i.state, i.no_fault) refl }, refl)
  | inr m ↦
      rw
        (
          f, note_call, call, do_resume_after_cancel, a, resume_cancelled, note_must_resume, m,
          propagate_cancel,
        )
        (refl, rw (i.state, i.no_fault) refl)
]

pub forward_cancel-IsGuarded :
    (o : OnCancel) (s : Checked) (aw : Script)
    → s.promise.parent ≡ present
    → s.promise.activity ≡ suspended aw
    → s.promise.on_resume ≡ resume_after_cancel
    → s.in_await ≡ true
    → s.asked ≡ true
    → IsAt Checker.cancelling s.checker
    → IsGuarded (forward_cancel o s)
unfolding forward_cancel propagate_cancel cancel_returned awaitee_resumes
forward_cancel-IsGuarded confirms s aw e a f w q i = (refl, rw (i.state, i.no_fault) refl)
forward_cancel-IsGuarded defers s aw e a f w q i = rw (e, a, f) (w, i, q)
forward_cancel-IsGuarded completes s aw e a f w q i =
    resume_other (record s { checker = hf_qcorral.Checker.resumed s.checker }) aw e a f w q
      (resumed-IsAt Checker.cancelling Checker.ready_after_cancel s.checker i refl)

suspend_at-IsGuarded :
    (o : OnSuspend) (q : Bool) (s : Checked) (aw : Script)
    → s.promise.parent ≡ present
    → s.promise.activity ≡ suspended aw
    → s.promise.on_resume ≡ (if q then resume_after_cancel else resume)
    → s.in_await ≡ true
    → (q ≡ true → s.asked ≡ true)
    → Holds proxy_handle (if q then Checker.cancelling else Checker.running) s.checker
    → IsGuarded (suspend_at o q s)
unfolding suspend_at awaitee_resumes suspend_threw
suspend_at-IsGuarded keeps true s aw e a f w q i = rw (e, a, f) (w, i.at, q refl)
suspend_at-IsGuarded keeps false s aw e a f w q i = rw (e, a, f) (w, i)
suspend_at-IsGuarded resumes true s aw e a f w q i =
    resume_other (record s { checker = hf_qcorral.Checker.resumed s.checker }) aw e a f w (q refl)
      (resumed-IsAt Checker.cancelling Checker.ready_after_cancel s.checker i.at refl)
suspend_at-IsGuarded resumes false s aw e a f w q i =
    resume_one (record s { checker = hf_qcorral.Checker.resumed s.checker }) aw e a f w
      (resumed-IsAt Checker.running Checker.ready s.checker i.at refl)
suspend_at-IsGuarded (throws ex) true s aw e a f w q i =
    rw (e, q refl) (refl, rw (i.at.state, i.at.no_fault) refl, refl, refl)
suspend_at-IsGuarded (throws ex) false s aw e a f w q i =
    rw e (refl, rw (i.at.state, i.at.no_fault) refl, refl, refl)

pub suspend_checked-IsGuarded :
    (aw : Script) (q : Bool) (s : Checked)
    → s.promise.parent ≡ present
    → s.promise.activity ≡ suspended aw
    → s.promise.on_resume ≡ (if q then resume_after_cancel else resume)
    → s.in_await ≡ true
    → (q ≡ true → s.asked ≡ true)
    → IsAt (if q then Checker.cancel_pending else Checker.not_ready) s.checker
    → IsGuarded (suspend_checked aw q s)
unfolding suspend_checked
suspend_checked-IsGuarded aw true s e a f w q i =
    suspend_at-IsGuarded aw.on_suspend true
      (record s { checker = about_to_suspend proxy_handle (about_to_set_executor s.checker) }) aw e
      a f w q
      (suspend-Holds proxy_handle Checker.cancel_pending Checker.cancelling s.checker i refl refl)
suspend_checked-IsGuarded aw false s e a f w q i =
    suspend_at-IsGuarded aw.on_suspend false
      (record s { checker = about_to_suspend proxy_handle (about_to_set_executor s.checker) }) aw e
      a f w q (suspend-Holds proxy_handle Checker.not_ready Checker.running s.checker i refl refl)
