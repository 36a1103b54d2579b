-- ===== src/Promise/Checked.antt =====
-- A task that follows its awaitee with a checker: BasePromise with CORRAL_AWAITABLE_STATE_DEBUG
-- (Promise.h, utility.h).
use hf_qcorral.Prelude.{ℕ, Bool, true, false, not, ◌&&◌, List, [], ◌∷◌, if◌then◌else◌}
use hf_qcorral.Awaitable.{
  OnSuspend, keeps, resumes, throws, OnCancel, confirms, defers, completes, Script,
}
use hf_qcorral.Promise.{
  Activity, ready, running, suspended, OnResumed, resume, resume_after_cancel, nothing, unset,
  present, gone, Promise, requested, propagate_cancel, start, do_resume_after_cancel, run_step,
  cancel, finish,
}
use hf_qcorral.Promise.Protocol.{
  TaskEvent, starts, runs, completed, is_cancelled, ends, co_awaits, is_possible,
}
use hf_qcorral.Checker.{
  AwaitableStateChecker, reset, ready_returned, early_cancel_returned, about_to_set_executor,
  about_to_suspend, suspend_threw, about_to_cancel, cancel_returned, must_resume_returned,
  about_to_resume,
}

-- `proxyHandle()`, of the one task that is looked at.
abbrev pub proxy_handle : ℕ
proxy_handle = 1

-- `in_await` is whether the body stands at a `co_await` that has suspended it, `asked` whether the
-- task was asked to cancel.
pub record Checked : Type 0 where
  pub promise : Promise
  pub checker : AwaitableStateChecker
  pub in_await : Bool
  pub asked : Bool

unfoldable pub make : Checked
make = record {
  promise = hf_qcorral.Promise.make;
  checker = hf_qcorral.Checker.make;
  in_await = false;
  asked = false;
}

abbrev note : (AwaitableStateChecker → AwaitableStateChecker) → Checked → Checked
note f s = record s { checker = f s.checker }

abbrev on_promise : (Promise → Promise) → Checked → Checked
on_promise f s = record s { promise = f s.promise }

-- `doResumeAfterCancel`, as far as it asks the awaitee.
unfoldable pub note_must_resume : Activity → AwaitableStateChecker → AwaitableStateChecker
unfolding must_resume_returned
note_must_resume (suspended aw) c = must_resume_returned aw.must_resume c
note_must_resume (ready q) c = c
note_must_resume (running q) c = c

-- `proxyHandle().resume()`.
unfoldable pub note_call : OnResumed → Activity → AwaitableStateChecker → AwaitableStateChecker
unfolding note_must_resume
note_call resume a c = c
note_call resume_after_cancel a c = note_must_resume a c
note_call nothing a c = c

unfoldable pub handle_resumed : Checked → Checked
unfolding note_call
handle_resumed s = record s {
  promise = hf_qcorral.Promise.resumed s.promise;
  checker = note_call s.promise.on_resume s.promise.activity s.checker;
}

-- The awaitee resumes the handle that the checker has given it.
unfoldable pub awaitee_resumes : Checked → Checked
unfolding handle_resumed
awaitee_resumes s = handle_resumed (note hf_qcorral.Checker.resumed s)

-- `cancel` of a suspended task.
unfoldable pub forward_cancel : OnCancel → Checked → Checked
unfolding propagate_cancel awaitee_resumes
forward_cancel confirms s = on_promise propagate_cancel (note (cancel_returned true) s)
forward_cancel defers s = note (cancel_returned false) s
forward_cancel completes s = note (cancel_returned false) (awaitee_resumes s)

unfoldable pub cancel_at : Activity → Checked → Checked
unfolding forward_cancel
cancel_at (suspended aw) s = forward_cancel aw.on_cancel (
    note (about_to_cancel proxy_handle)
      (on_promise (λ p. record p { on_resume = resume_after_cancel }) s))
cancel_at (ready q) s = on_promise cancel s
cancel_at (running q) s = on_promise cancel s

unfoldable pub cancel_checked : Checked → Checked
unfolding cancel_at
cancel_checked s = cancel_at s.promise.activity (record s { asked = true })

-- The end of `hookAwaitSuspend`, from `await_set_executor` on.
unfoldable pub suspend_at : OnSuspend → Bool → Checked → Checked
unfolding awaitee_resumes suspend_threw
suspend_at keeps q s = s
suspend_at resumes q s = awaitee_resumes s
suspend_at (throws ex) q s =
    record (on_promise (λ p. record p { activity = running q }) (note suspend_threw s)) {
      in_await = false;
    }

unfoldable pub suspend_checked : Script → Bool → Checked → Checked
unfolding suspend_at
suspend_checked aw q s =
    suspend_at aw.on_suspend q (note (about_to_suspend proxy_handle) (note about_to_set_executor s))

unfoldable pub hook_checked : Script → Checked → Checked
unfolding suspend_checked propagate_cancel handle_resumed
hook_checked aw s =
    let s' = record (on_promise (λ p. record p { activity = suspended aw }) s) {
      in_await = true;
    } in
    let hooked = λ (f : OnResumed) (t : Checked). on_promise (λ p. record p { on_resume = f }) t in
    if requested s.promise.activity
    then (if aw.early_cancel
        then on_promise propagate_cancel (note (early_cancel_returned true) s')
        else (if aw.is_ready
            then handle_resumed (
                note (ready_returned true)
                  (hooked resume_after_cancel (note (early_cancel_returned false) s')))
            else suspend_checked aw true (
                note (ready_returned false)
                  (hooked resume_after_cancel (note (early_cancel_returned false) s')))))
    else suspend_checked aw false (hooked resume s')

-- `co_await`: AwaitProxy resets the checker, and asks `await_ready` if no cancellation is requested;
-- what is ready is resumed at once.
unfoldable pub await_checked : Script → Checked → Checked
unfolding hook_checked
await_checked aw s =
    let s' = note reset s in
    if requested s.promise.activity
    then hook_checked aw s'
    else (if aw.is_ready
        then note about_to_resume (note (ready_returned true) s')
        else hook_checked aw (note (ready_returned false) s'))

-- A turn of the executor: the body goes on with `await_resume`, if it stands at a `co_await`.
unfoldable pub run_checked : Checked → Checked
unfolding run_step
run_checked s =
    let s' = on_promise run_step s in
    if s.in_await then record (note about_to_resume s') { in_await = false } else s'

-- The handle is resumed by the one who starts the task, or by its awaitee.
unfoldable pub complete_at : Activity → Checked → Checked
unfolding awaitee_resumes handle_resumed
complete_at (suspended aw) s = awaitee_resumes s
complete_at (ready q) s = handle_resumed s
complete_at (running q) s = handle_resumed s

unfoldable pub apply_checked : TaskEvent → Checked → Checked
unfolding complete_at run_checked cancel_checked await_checked
apply_checked starts s = on_promise start s
apply_checked runs s = run_checked s
apply_checked completed s = complete_at s.promise.activity s
apply_checked is_cancelled s = cancel_checked s
apply_checked ends s = on_promise finish s
apply_checked (co_awaits aw) s = await_checked aw s

abbrev pub is_repeated : TaskEvent → Checked → Bool
is_repeated e s = elim e [ is_cancelled ↦ s.asked | _ ↦ false ]

-- A task is cancelled once.
unfoldable pub step_checked : Checked → TaskEvent → Checked
unfolding apply_checked
step_checked s e = if is_possible e s.promise && not (is_repeated e s) then apply_checked e s else s

unfoldable pub run_all : Checked → List TaskEvent → Checked
unfolding step_checked
run_all s [] = s
run_all s (e ∷ es) = run_all (step_checked s e) es
