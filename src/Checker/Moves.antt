-- ===== src/Checker/Moves.antt =====
-- How a checker that has seen no violation goes on (utility.h).
use hf_qcorral.Prelude.{
  ℕ, ◌≡◌, refl, Bool, true, false, Option, none, some, ◌==◌, if◌then◌else◌, arith,
}
use hf_qcorral.Checker.{
  State, initial, not_ready, initial_cxl_pend, cancel_pending, ready_immediately, running,
  cancelling, ready_after_cancel, ready, cancelled, done, AwaitableStateChecker, go, after_resumed,
  resumed, may_reset, reset, after_ready, ready_returned, after_early_cancel, early_cancel_returned,
  takes_executor, about_to_set_executor, after_suspend, about_to_suspend, is_suspended,
  suspend_threw, about_to_cancel, cancel_returned, must_resume_returned, has_result,
  about_to_resume,
}

-- In a state, with no assertion failed.
pub record IsAt (s : State) (c : AwaitableStateChecker) : Type 0 where
  pub state : c.state ≡ s
  pub no_fault : c.fault ≡ false

-- The awaitee was given the handle of the checker in place of this one.
pub record Holds (h : ℕ) (s : State) (c : AwaitableStateChecker) : Type 0 where
  pub at : IsAt s c
  pub handle : c.real_handle ≡ some h

go-IsAt :
    (o : Option State) (s : State) (c : AwaitableStateChecker)
    → c.fault ≡ false
    → o ≡ some s
    → IsAt s (go o c)
go-IsAt none s c f e = cc
go-IsAt (some t) s c f e = record { state = ground (arith, e); no_fault = f }

pub reset-IsAt :
    (c : AwaitableStateChecker)
    → c.fault ≡ false
    → may_reset c.state ≡ true
    → IsAt initial (reset c)
unfolding reset
reset-IsAt c f m = record { state = refl; no_fault = rw (f, m) refl }

pub ready_returned-IsAt :
    (val : Bool) (c : AwaitableStateChecker)
    → IsAt initial c
    → IsAt (if val then ready_immediately else not_ready) (ready_returned val c)
unfolding ready_returned
ready_returned-IsAt val c i = go-IsAt (after_ready val c.state) _ c i.no_fault (rw i.state refl)

pub early_cancel_returned-IsAt :
    (val : Bool) (c : AwaitableStateChecker)
    → IsAt initial c
    → IsAt (if val then cancelled else initial_cxl_pend) (early_cancel_returned val c)
unfolding early_cancel_returned
early_cancel_returned-IsAt val c i =
    go-IsAt (after_early_cancel val c.state) _ c i.no_fault (rw i.state refl)

pub ready_pending-IsAt :
    (val : Bool) (c : AwaitableStateChecker)
    → IsAt initial_cxl_pend c
    → IsAt (if val then ready_after_cancel else cancel_pending) (ready_returned val c)
unfolding ready_returned
ready_pending-IsAt val c i = go-IsAt (after_ready val c.state) _ c i.no_fault (rw i.state refl)

-- From `aboutToSetExecutor` to `aboutToSuspend`.
pub suspend-Holds :
    (h : ℕ) (s t : State) (c : AwaitableStateChecker)
    → IsAt s c
    → takes_executor s ≡ true
    → after_suspend s ≡ some t
    → Holds h t (about_to_suspend h (about_to_set_executor c))
unfolding about_to_suspend about_to_set_executor
suspend-Holds h s t c i e n =
    rw (i.state, i.no_fault, e, n)
      record { at = record { state = refl; no_fault = refl }; handle = refl }

pub suspend_threw-IsAt :
    (c : AwaitableStateChecker)
    → c.fault ≡ false
    → is_suspended c.state ≡ true
    → IsAt done (suspend_threw c)
unfolding suspend_threw
suspend_threw-IsAt c f m = record { state = refl; no_fault = rw (f, m) refl }

pub resumed-IsAt :
    (s t : State) (c : AwaitableStateChecker)
    → IsAt s c
    → after_resumed s ≡ some t
    → IsAt t (resumed c)
unfolding resumed
resumed-IsAt s t c i e = go-IsAt (after_resumed c.state) t c i.no_fault (rw i.state e)

pub about_to_cancel-IsAt :
    (h : ℕ) (c : AwaitableStateChecker)
    → Holds h running c
    → (h == h) ≡ true
    → IsAt cancelling (about_to_cancel h c)
unfolding about_to_cancel
about_to_cancel-IsAt h c i e = record {
  state = refl;
  no_fault = rw (i.at.state, i.at.no_fault, i.handle, e) refl;
}

pub cancel_returned-IsAt :
    (c : AwaitableStateChecker) → IsAt cancelling c → IsAt cancelled (cancel_returned true c)
unfolding cancel_returned
cancel_returned-IsAt c i = record { state = refl; no_fault = rw (i.state, i.no_fault) refl }

pub must_resume_returned-IsAt :
    (val : Bool) (c : AwaitableStateChecker)
    → IsAt ready_after_cancel c
    → IsAt (if val then ready else cancelled) (must_resume_returned val c)
unfolding must_resume_returned
must_resume_returned-IsAt val c i = record {
  state = refl;
  no_fault = rw (i.state, i.no_fault) refl;
}

pub about_to_resume-IsAt :
    (c : AwaitableStateChecker)
    → c.fault ≡ false
    → has_result c.state ≡ true
    → IsAt done (about_to_resume c)
unfolding about_to_resume
about_to_resume-IsAt c f m = record { state = refl; no_fault = rw (f, m) refl }
