-- ===== src/Promise.antt =====
-- corral/corral/detail/Promise.h: BasePromise, the state of a task, and how it is cancelled.
-- The body of the task is the user's. It shows in what it awaits and in how it ends, which are
-- events that the model is given; so are the executor's turns and the awaitees' completions.
pub mod Protocol
pub mod Pause
pub mod Once
pub mod Pending
pub mod Checked
pub mod Guarded
pub mod Erased
pub mod Obeyed
pub mod Asserted
mod Tests
use hf_qcorral.Prelude.{
  ℕ, ◌+◌, ◌-◌, Bool, true, false, not, ◌&&◌, ◌||◌, List, [], ◌∷◌, ◌==◌, if◌then◌else◌, ltb,
}
use hf_qcorral.Awaitable.{
  Exception, OnSuspend, keeps, resumes, throws, OnCancel, confirms, defers, completes, Script,
}

-- The union of `state_` with `cancelState_` (whether it is `Requested`), and `awaitee_`. Assigning
-- an awaitee overwrites both; a state that is assigned over an awaitee leaves no request behind.
pub data Activity : Type 0 where
  ready running : Bool → Activity
  suspended : Script → Activity

-- `resumeFn`: what `proxyHandle().resume()` runs.
pub data OnResumed : Type 0 where
  resume resume_after_cancel nothing : OnResumed

-- `parent_` before `start`, then, and after the task has ended.
pub data Parent : Type 0 where
  unset present gone : Parent

-- `queued` counts the steps of the task that the executor has yet to run; `cancelled` and
-- `continued` count the calls of `parent->cancelled()` and `parent->continuation()`. `fault`
-- records a use of a null parent.
pub record Promise : Type 0 where
  pub activity : Activity
  pub on_resume : OnResumed
  pub parent : Parent
  pub queued : ℕ
  pub cancelled : ℕ
  pub continued : ℕ
  pub fault : Bool

unfoldable pub make : Promise
make = record {
  activity = ready false;
  on_resume = nothing;
  parent = unset;
  queued = 0;
  cancelled = 0;
  continued = 0;
  fault = false;
}

abbrev pub is_present : Parent → Bool
is_present p = elim p [ present ↦ true | _ ↦ false ]

-- `start` of a task that has a coroutine.
unfoldable pub start : Promise → Promise
start p = record p { parent = present; on_resume = resume }

-- Whether a cancellation is requested, for a task that is not suspended.
abbrev pub requested : Activity → Bool
requested (ready c) = c
requested (running c) = c
requested (suspended aw) = false

unfoldable pub do_resume : Promise → Promise
do_resume p = record p {
  activity = ready (requested p.activity);
  on_resume = nothing;
  queued = p.queued + 1;
}

unfoldable pub propagate_cancel : Promise → Promise
propagate_cancel p = record p {
  parent = gone;
  cancelled = p.cancelled + 1;
  continued = p.continued + 1;
  fault = p.fault || not (is_present p.parent);
}

unfoldable pub resume_cancelled : Activity → Promise → Promise
unfolding do_resume propagate_cancel
resume_cancelled (suspended aw) p =
    if aw.must_resume then do_resume (record p { activity = ready true }) else propagate_cancel p
resume_cancelled (ready c) p = propagate_cancel p
resume_cancelled (running c) p = propagate_cancel p

unfoldable pub do_resume_after_cancel : Promise → Promise
unfolding resume_cancelled
do_resume_after_cancel p = resume_cancelled p.activity p

-- `proxyHandle().resume()`, by `resumeFn`.
unfoldable pub call : OnResumed → Promise → Promise
unfolding do_resume do_resume_after_cancel
call resume p = do_resume p
call resume_after_cancel p = do_resume_after_cancel p
call nothing p = p

unfoldable pub resumed : Promise → Promise
unfolding call
resumed p = call p.on_resume p

-- The step that `doResume` submits to the executor, up to `h.resume()`.
unfoldable pub run_step : Promise → Promise
run_step p = record p { activity = running (requested p.activity); queued = p.queued - 1 }

-- `cancel` for a suspended task, by what `await_cancel` of its awaitee did.
unfoldable pub forward_cancel : OnCancel → Promise → Promise
unfolding propagate_cancel do_resume_after_cancel
forward_cancel confirms p = propagate_cancel p
forward_cancel defers p = p
forward_cancel completes p = do_resume_after_cancel p

unfoldable pub cancel_at : Activity → Promise → Promise
unfolding forward_cancel
cancel_at (ready c) p = record p { activity = ready true }
cancel_at (running c) p = record p { activity = running true }
cancel_at (suspended aw) p =
    forward_cancel aw.on_cancel (record p { on_resume = resume_after_cancel })

unfoldable pub cancel : Promise → Promise
unfolding cancel_at
cancel p = cancel_at p.activity p

-- The end of `hookAwaitSuspend`, by what `await_suspend` of the awaitee did: an exception goes on
-- into the task, with the request.
unfoldable pub suspend : OnSuspend → Bool → Promise → Promise
unfolding resumed
suspend keeps c p = p
suspend resumes c p = resumed p
suspend (throws ex) c p = record p { activity = running c }

-- `hookAwaitSuspend`.
unfoldable pub hook_await_suspend : Script → Promise → Promise
unfolding suspend propagate_cancel resumed
hook_await_suspend aw p =
    let p' = record p { activity = suspended aw } in
    if requested p.activity
    then (if aw.early_cancel
        then propagate_cancel p'
        else (if aw.is_ready
            then resumed (record p' { on_resume = resume_after_cancel })
            else suspend aw.on_suspend true (record p' { on_resume = resume_after_cancel })))
    else suspend aw.on_suspend false (record p' { on_resume = resume })

-- `co_await`: AwaitProxy asks `await_ready` only if no cancellation is requested.
unfoldable pub await : Script → Promise → Promise
unfolding hook_await_suspend
await aw p = if not (requested p.activity) && aw.is_ready then p else hook_await_suspend aw p

-- `hookFinalSuspend`.
unfoldable pub finish : Promise → Promise
finish p = record p {
  parent = gone;
  continued = p.continued + 1;
  fault = p.fault || not (is_present p.parent);
}
