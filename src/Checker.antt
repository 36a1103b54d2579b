-- ===== src/Checker.antt =====
-- corral/corral/detail/utility.h: AwaitableStateChecker, which follows the calls that an awaitable
-- is given and asserts that they come in the order of the protocol.
pub mod Moves
use hf_qcorral.Prelude.{
  ℕ, Bool, true, false, not, ◌&&◌, ◌||◌, Option, none, some, ◌==◌, if◌then◌else◌,
}

pub data State : Type 0 where
  initial not_ready initial_cxl_pend cancel_pending ready_immediately running cancelling
        ready_after_cancel ready cancelled done :
      State

-- `fault` records a failed assertion. `real_handle` is `realHandle_`, by a number.
pub record AwaitableStateChecker : Type 0 where
  pub state : State
  pub has_executor : Bool
  pub real_handle : Option ℕ
  pub fault : Bool

unfoldable pub make : AwaitableStateChecker
make = record { state = initial; has_executor = false; real_handle = none; fault = false }

-- The next state, with none where an assertion fails.
abbrev pub go : Option State → AwaitableStateChecker → AwaitableStateChecker
go none c = record c { fault = true }
go (some s) c = record c { state = s }

-- `resumeFn`, before it resumes `realHandle_`.
abbrev pub after_resumed : State → Option State
after_resumed s = elim s [ running ↦ some ready | cancelling ↦ some ready_after_cancel | _ ↦ none ]

unfoldable pub resumed : AwaitableStateChecker → AwaitableStateChecker
resumed c = go (after_resumed c.state) c

abbrev pub may_reset : State → Bool
may_reset s = elim s [ cancelled ↦ true | done ↦ true | initial ↦ true | _ ↦ false ]

-- `reset`, which is what the destructor calls too.
unfoldable pub reset : AwaitableStateChecker → AwaitableStateChecker
reset c = record c {
  state = initial;
  has_executor = false;
  fault = c.fault || not (may_reset c.state);
}

abbrev pub after_ready : Bool → State → Option State
after_ready val s = elim s [
  | initial ↦ some (if val then ready_immediately else not_ready)
  | not_ready ↦ some (if val then ready_immediately else not_ready)
  | initial_cxl_pend ↦ some (if val then ready_after_cancel else cancel_pending)
  | cancel_pending ↦ some (if val then ready_after_cancel else cancel_pending)
  | ready_immediately ↦ (if val then some ready_immediately else none)
  | ready_after_cancel ↦ (if val then some ready_after_cancel else none)
  | _ ↦ none
]

unfoldable pub ready_returned : Bool → AwaitableStateChecker → AwaitableStateChecker
ready_returned val c = go (after_ready val c.state) c

abbrev pub after_early_cancel : Bool → State → Option State
after_early_cancel val s = elim s [
  | initial ↦ some (if val then cancelled else initial_cxl_pend)
  | not_ready ↦ some (if val then cancelled else cancel_pending)
  | ready_immediately ↦ some (if val then cancelled else ready_after_cancel)
  | _ ↦ none
]

unfoldable pub early_cancel_returned : Bool → AwaitableStateChecker → AwaitableStateChecker
early_cancel_returned val c = go (after_early_cancel val c.state) c

abbrev pub takes_executor : State → Bool
takes_executor s = elim s [
  | not_ready ↦ true
  | cancel_pending ↦ true
  | ready_immediately ↦ true
  | initial ↦ true
  | initial_cxl_pend ↦ true
  | _ ↦ false
]

unfoldable pub about_to_set_executor : AwaitableStateChecker → AwaitableStateChecker
about_to_set_executor c = record c {
  has_executor = true;
  fault = c.fault || not (takes_executor c.state);
}

abbrev pub after_suspend : State → Option State
after_suspend s = elim s [ not_ready ↦ some running | cancel_pending ↦ some cancelling | _ ↦ none ]

-- `aboutToSuspend(h)`; the handle that it returns is that of the checker.
unfoldable pub about_to_suspend : ℕ → AwaitableStateChecker → AwaitableStateChecker
about_to_suspend h c =
    let c' = go (after_suspend c.state) c in
    record c' { real_handle = some h; fault = c'.fault || not c.has_executor }

abbrev pub is_suspended : State → Bool
is_suspended s = elim s [ running ↦ true | cancelling ↦ true | _ ↦ false ]

unfoldable pub suspend_threw : AwaitableStateChecker → AwaitableStateChecker
suspend_threw c = record c { state = done; fault = c.fault || not (is_suspended c.state) }

abbrev pub is_running : State → Bool
is_running s = elim s [ running ↦ true | _ ↦ false ]

abbrev pub is_handle : ℕ → Option ℕ → Bool
is_handle h none = false
is_handle h (some r) = r == h

unfoldable pub about_to_cancel : ℕ → AwaitableStateChecker → AwaitableStateChecker
about_to_cancel h c = record c {
  state = cancelling;
  fault = c.fault || not (is_running c.state && is_handle h c.real_handle);
}

abbrev pub is_cancelling : State → Bool
is_cancelling s = elim s [ cancelling ↦ true | _ ↦ false ]

unfoldable pub cancel_returned : Bool → AwaitableStateChecker → AwaitableStateChecker
cancel_returned val c =
    if val
    then record c { state = cancelled; fault = c.fault || not (is_cancelling c.state) }
    else c

abbrev pub needs_must_resume : State → Bool
needs_must_resume s = elim s [ ready_after_cancel ↦ true | _ ↦ false ]

unfoldable pub must_resume_returned : Bool → AwaitableStateChecker → AwaitableStateChecker
must_resume_returned val c = record c {
  state = if val then ready else cancelled;
  fault = c.fault || not (needs_must_resume c.state);
}

abbrev pub has_result : State → Bool
has_result s = elim s [ ready_immediately ↦ true | ready ↦ true | _ ↦ false ]

unfoldable pub about_to_resume : AwaitableStateChecker → AwaitableStateChecker
about_to_resume c = record c { state = done; fault = c.fault || not (has_result c.state) }
