-- ===== src/CbPortal.antt =====
-- corral/corral/CBPortal.h: a callback that a task awaits, and the proxy that hands it to an initiate
-- function, for one portal.
-- What the initiate function does, and what comes after it, is a list of actions: calls of the
-- callback, requests to cancel the task, and the task's awaiting the portal again. A callback that
-- wakes the task runs it before it returns (Executor::capture), up to where it awaits or goes on
-- with other things.
pub mod Delivery
pub mod Held
pub mod Cancel
mod Tests
pub mod Pace
use hf_qcorral.Prelude.{
  ℕ, ◌+◌, Bool, true, false, not, ◌&&◌, ◌||◌, Option, none, some, List, [], ◌∷◌, ◌++◌,
  if◌then◌else◌,
}

-- CBPortal: `value_` and `parent_`. `fault` records a failed assertion.
pub record Portal : Type 0 where
  pub value : Option ℕ
  pub parent : Option ℕ
  pub fault : Bool

abbrev pub has_value : Option ℕ → Bool
has_value o = elim o [ none ↦ false | some v ↦ true ]

-- `await_ready`, and `await_must_resume`, which is the same.
abbrev pub await_ready : Portal → Bool
await_ready p = has_value p.value

abbrev pub await_suspend : ℕ → Portal → Portal
await_suspend h p = record p { parent = some h }

-- `await_resume`: what it yields, and the portal.
abbrev pub await_resume : Portal → Option ℕ × Portal
await_resume p = (p.value, record p { value = none; fault = p.fault || not (await_ready p) })

-- `wakeUp`: the handle that it resumes. `await_cancel` is a call of it.
abbrev pub wake_up : Portal → Option ℕ × Portal
wake_up p = (p.parent, record p { parent = none })

-- `Callback::operator()`, up to `wakeUp`.
unfoldable pub emplace : ℕ → Portal → Portal
emplace v p = record p { value = some v; fault = p.fault || has_value p.value }

-- CBPortalProxyStatus.
pub data Status : Type 0 where
  not_started scheduled cancel_pending initiated : Status

-- Where the task is that awaits: in the proxy, in the portal itself, elsewhere, or cancelled.
pub data Consumer : Type 0 where
  in_proxy in_portal elsewhere cancelled : Consumer

-- The proxy with its portal and the task. `external` is `PortalsAreExternal`, `cancel_fn` whether
-- a cancel function was given, and `cancel_calls` counts its calls; `completed` is what `completed_`
-- points to; `received` is what `await_resume` has given to the task, and `asked`
-- whether the task was asked to cancel: a request that finds it elsewhere, or that the proxy does
-- not confirm, waits for the next `co_await` (see Promise).
pub record Proxy : Type 0 where
  pub portal : Portal
  pub status : Status
  pub external : Bool
  pub cancel_fn : Bool
  pub completed : Bool
  pub cancel_calls : ℕ
  pub consumer : Consumer
  pub asked : Bool
  pub received : List ℕ
  pub fault : Bool

-- The constructors of CBPortalProxy.
unfoldable pub make : Bool → Bool → Proxy
make external cancel_fn = record {
  portal = record { value = none; parent = none; fault = false };
  status = if external then scheduled else not_started;
  external = external;
  cancel_fn = cancel_fn;
  completed = false;
  cancel_calls = 0;
  consumer = in_proxy;
  asked = false;
  received = [];
  fault = false;
}

abbrev pub listed : Option ℕ → List ℕ
listed o = elim o [ none ↦ [] | some v ↦ v ∷ [] ]

-- The task goes on with `await_resume`, in the proxy or in the portal.
unfoldable pub resume_consumer : Proxy → Proxy
resume_consumer s =
    let (v, p) = await_resume s.portal in
    record s {
      portal = p;
      received = s.received ++ listed v;
      consumer = elsewhere;
      completed = true;
    }

-- The task whose handle was resumed: it has a result, or it was cancelled.
unfoldable pub run_consumer : Proxy → Proxy
unfolding resume_consumer
run_consumer s =
    if await_ready s.portal then resume_consumer s else record s { consumer = cancelled }

abbrev pub run_handle : Option ℕ → Proxy → Proxy
run_handle h s = elim h [ none ↦ s | some x ↦ run_consumer s ]

-- `wakeUp`, with what `capture` then runs.
unfoldable pub wake : Proxy → Proxy
unfolding run_consumer
wake s = let (h, p) = wake_up s.portal in run_handle h (record s { portal = p })

unfoldable pub call_back : ℕ → Proxy → Proxy
unfolding wake emplace
call_back v s = wake (record s { portal = emplace v s.portal })

-- `await_cancel` of the proxy, which always returns false for one portal.
unfoldable pub cancel_initiated : Proxy → Proxy
unfolding wake
cancel_initiated s =
    if not s.external && not s.cancel_fn
    then s
    else wake
        (record s { cancel_calls = if s.cancel_fn then s.cancel_calls + 1 else s.cancel_calls })

unfoldable pub cancel_at : Status → Proxy → Proxy
unfolding cancel_initiated
cancel_at not_started s = record s { fault = true }
cancel_at scheduled s = record s { status = cancel_pending }
cancel_at cancel_pending s = record s { status = cancel_pending }
cancel_at initiated s = cancel_initiated s

unfoldable pub await_cancel : Proxy → Proxy
unfolding cancel_at
await_cancel s = cancel_at s.status s

pub data Action : Type 0 where
  calls : ℕ → Action
  requests awaits : Action

unfoldable pub request_at : Consumer → Proxy → Proxy
unfolding await_cancel wake
request_at in_proxy s = await_cancel s
request_at in_portal s = wake s
request_at elsewhere s = s
request_at cancelled s = s

-- `co_await portal`: a task that was asked to cancel is cancelled, whether there is a value or not,
-- since a portal does not say what becomes of an early cancellation.
unfoldable pub await_portal : Proxy → Proxy
unfolding resume_consumer
await_portal s =
    if s.asked
    then record s { consumer = cancelled }
    else (if await_ready s.portal
        then resume_consumer s
        else record s { portal = await_suspend 2 s.portal; consumer = in_portal })

unfoldable pub await_at : Consumer → Proxy → Proxy
unfolding await_portal
await_at in_proxy s = s
await_at in_portal s = s
await_at elsewhere s = await_portal s
await_at cancelled s = s

-- A callback that comes after the portal is gone is a fault of who calls it.
unfoldable pub call_at : Consumer → ℕ → Proxy → Proxy
unfolding call_back
call_at in_proxy v s = call_back v s
call_at in_portal v s = call_back v s
call_at elsewhere v s = call_back v s
call_at cancelled v s = record s { fault = true }

unfoldable pub act : Action → Proxy → Proxy
unfolding call_at request_at await_at
act (calls v) s = call_at s.consumer v s
act requests s = request_at s.consumer (record s { asked = true })
act awaits s = await_at s.consumer s

unfoldable pub acts : List Action → Proxy → Proxy
unfolding act
acts [] s = s
acts (a ∷ more) s = acts more (act a s)

abbrev is_scheduled : Status → Bool
is_scheduled x = elim x [ scheduled ↦ true | _ ↦ false ]

abbrev is_not_started : Status → Bool
is_not_started x = elim x [ not_started ↦ true | _ ↦ false ]

abbrev pub is_cancel_pending : Status → Bool
is_cancel_pending x = elim x [ cancel_pending ↦ true | _ ↦ false ]

-- `await_early_cancel`: whether it skips the proxy.
unfoldable pub await_early_cancel : Proxy → Bool × Proxy
await_early_cancel s =
    if s.external
    then (
      false,
      record s {
        status = cancel_pending;
        asked = true;
        fault = s.fault || not (is_scheduled s.status);
      },
    )
    else (true, record s { fault = s.fault || not (is_not_started s.status) })

-- What `await_suspend` does after the initiate function.
unfoldable pub finish_initiate : Proxy → Proxy
unfolding await_cancel
finish_initiate s =
    if s.completed
    then s
    else (if is_cancel_pending s.status && has_value s.portal.parent
        then await_cancel (record s { status = initiated })
        else record s { status = initiated })

-- `await_set_executor`, then `await_suspend` with the actions of the initiate function.
unfoldable pub initiate : List Action → Proxy → Proxy
unfolding acts finish_initiate
initiate more s =
    let s' = record s {
      portal = await_suspend 1 s.portal;
      status = elim s.status [ not_started ↦ scheduled | x ↦ x ];
      fault = s.fault || await_ready s.portal;
    } in
    finish_initiate (acts more s')
