-- ===== src/Nursery.antt =====
-- corral/corral/Nursery.h: Nursery, UnsafeNursery and the awaitables of their parents. A task is
-- told by the address of its promise. What the nursery asks of others is returned or kept in order:
-- the tasks on which it calls `cancel`, and what it submits to the executor.
pub mod History
pub mod Stage
pub mod Joined
pub mod Life
pub mod Fate
pub mod Requests
pub mod Reach
pub mod Failure
mod Tests
use hf_qcorral.Prelude.{
  ℕ, Bool, true, false, not, ◌&&◌, ◌||◌, Option, none, some, List, [], ◌∷◌, ◌++◌, map, ◌==◌,
  if◌then◌else◌, inc_size, dec_size,
}
use hf_qcorral.Awaitable.{Exception}

-- `exception_`, if it is set: the tag of `cancellationRequest()`, or the exception of a task.
pub data Cause : Type 0 where
  cancellation_request : Cause
  raised : Exception → Cause

-- `parent_`: the handle of the awaiting task, or that of the continuation of `asyncClose`.
pub data Parent : Type 0 where
  awaiting closing : ℕ → Parent

-- What the executor is given.
pub data Action : Type 0 where
  destroy : ℕ → Action
  resume : Parent → Action

-- `executor` is whether `executor_` is set; `captured` is the local list of `capture`, whose
-- actions cancel one task each. `fault` records an assertion that failed or a use of a null
-- pointer, `terminated` a call of std::terminate().
pub record Nursery : Type 0 where
  pub executor : Bool
  pub tasks : List ℕ
  pub task_count : ℕ
  pub parent : Option Parent
  pub exception : Option Cause
  pub captured : List ℕ
  pub scheduled : List Action
  pub fault : Bool
  pub terminated : Bool

-- A nursery with an executor: of an UnsafeNursery, or of a scope after `await_set_executor`.
unfoldable pub make : Nursery
make = record {
  executor = true;
  tasks = [];
  task_count = 0;
  parent = none;
  exception = none;
  captured = [];
  scheduled = [];
  fault = false;
  terminated = false;
}

abbrev pub is_set {ℓ} : {A : Type ℓ} → Option A → Bool
is_set o = elim o [ none ↦ false | some a ↦ true ]

abbrev pub is_none : List ℕ → Bool
is_none [] = true
is_none (t ∷ ts) = false

-- `addTask`, with the tasks that it cancels.
unfoldable pub add_task : ℕ → Nursery → Nursery × List ℕ
add_task t n = (
  record n {
    tasks = n.tasks ++ t ∷ [];
    task_count = inc_size n.task_count;
    fault = n.fault || not n.executor;
  },
  if is_set n.exception then t ∷ [] else [],
)

-- `doCancel`: `capture` collects the calls and then runs them, one after the other.
unfoldable pub do_cancel : Nursery → Nursery
do_cancel n =
    if not n.executor || is_none n.tasks then n else record n { captured = n.captured ++ n.tasks }

-- A round of the loop that runs what was captured.
unfoldable pub send_next : List ℕ → Nursery → Nursery × List ℕ
send_next [] n = (n, [])
send_next (t ∷ ts) n = (record n { captured = ts }, t ∷ [])

unfoldable pub run_captured : Nursery → Nursery × List ℕ
unfolding send_next
run_captured n = send_next n.captured n

unfoldable pub cancel : Nursery → Nursery
unfolding do_cancel
cancel n =
    if is_set n.exception then n else do_cancel (record n { exception = some cancellation_request })

-- What `storeException` leaves in `exception_`.
unfoldable pub kept : Option Cause → Exception → Option Cause
kept none ex = some (raised ex)
kept (some cancellation_request) ex = some (raised ex)
kept (some (raised first)) ex = some (raised first)

unfoldable pub store_exception : Exception → Nursery → Nursery
unfolding do_cancel kept
store_exception ex n =
    if not (is_set n.parent)
    then record n { terminated = true }
    else (let n' = record n { exception = kept n.exception ex } in
        if not (is_set n.exception) then do_cancel n' else n')

-- `tasks_.erase`, of the item at its address.
unfoldable pub erase : ℕ → List ℕ → List ℕ
erase t [] = []
erase t (u ∷ us) = if u == t then us else u ∷ erase t us

-- The end of `continuation`: the last task that is done closes a nursery that has a parent.
unfoldable pub close_if_done : Option Parent → ℕ → Nursery → Nursery
close_if_done none t n = record n { scheduled = n.scheduled ++ destroy t ∷ [] }
close_if_done (some p) t n =
    if is_none n.tasks
    then record n {
      executor = false;
      parent = none;
      scheduled = n.scheduled ++ destroy t ∷ resume p ∷ [];
    }
    else record n { scheduled = n.scheduled ++ destroy t ∷ [] }

unfoldable pub continuation : ℕ → Nursery → Nursery
unfolding erase close_if_done
continuation t n = close_if_done n.parent t (record n {
  tasks = erase t n.tasks;
  task_count = dec_size n.task_count;
  fault = n.fault || not n.executor;
})

-- `Scope::await_suspend`, with the task of the body.
unfoldable pub open_scope : ℕ → ℕ → Nursery → Nursery × List ℕ
unfolding add_task
open_scope h body n = add_task body (record n { parent = some (awaiting h) })

-- UnsafeNursery::Awaitable, with whether the parent is suspended.
unfoldable pub join_ready : Nursery → Bool
join_ready n = not n.executor

unfoldable pub join_suspend : ℕ → Nursery → Nursery × Bool
join_suspend h n =
    let n' = record n { fault = n.fault || is_set n.parent } in
    if is_none n.tasks
    then (record n' { executor = false }, false)
    else (record n' { parent = some (awaiting h) }, true)

-- `asyncClose`, with whether it runs the continuation itself.
unfoldable pub async_close : ℕ → Nursery → Nursery × Bool
unfolding cancel
async_close c n =
    let n' = record n { fault = n.fault || is_set n.parent } in
    if is_none n.tasks
    then (record n' { executor = false }, true)
    else (cancel (record n' { parent = some (closing c) }), false)

-- The continuation of `asyncClose` rethrows what is not the tag, from a function that is noexcept.
unfoldable pub call_closing : Option Cause → Nursery → Nursery
call_closing none n = record n { terminated = true }
call_closing (some cancellation_request) n = n
call_closing (some (raised ex)) n = record n { terminated = true }

-- The handle of the parent is resumed.
unfoldable pub resume_parent : Parent → Nursery → Nursery
unfolding call_closing
resume_parent (awaiting h) n = n
resume_parent (closing c) n = call_closing n.exception n

-- ParentAwaitable: whether the parent goes on after a cancellation, and the exception that
-- `await_resume` throws.
unfoldable pub await_must_resume : Nursery → Bool
await_must_resume n = elim n.exception [ some cancellation_request ↦ false | _ ↦ true ]

unfoldable pub await_resume : Nursery → Option Exception
await_resume n = elim n.exception [ some (raised ex) ↦ some ex | _ ↦ none ]
