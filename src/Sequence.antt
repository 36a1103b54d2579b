-- ===== src/Sequence.antt =====
-- corral/corral/detail/Sequence.h: an awaitable and then another, made from its result.
mod Tests
pub mod Outcome
pub mod Cancel
use hf_qcorral.Prelude.{
  ℕ, ◌+◌, Bool, true, false, not, ◌&&◌, ◌||◌, ◌⊎◌, inl, inr, Option, none, some, if◌then◌else◌,
}
use hf_qcorral.Awaitable.{
  Exception, OnSuspend, keeps, resumes, throws, OnCancel, confirms, defers, completes, OnResume,
  yields, raises, Script,
}

-- The variant `second_`: the executor, the second stage, nothing, or an exception.
pub data Stage : Type 0 where
  first : Stage
  second : Script → Stage
  neither : Stage
  threw : Exception → Stage

-- `getSecond`: the function given to `then` throws, or makes the second awaitable.
abbrev pub ThenFn : Type 0
ThenFn = ℕ → Exception ⊎ Script

-- `parent_resumed` counts how often the parent's handle was resumed. `fault` records what ends the
-- program: an exception out of a `noexcept` function, or a variant read at the wrong alternative.
pub record Sequence : Type 0 where
  pub first_aw : Script
  pub then_fn : ThenFn
  pub stage : Stage
  pub cancelling : Bool
  pub parent_resumed : ℕ
  pub fault : Bool

unfoldable pub make : Script → ThenFn → Sequence
make s f = record {
  first_aw = s;
  then_fn = f;
  stage = first;
  cancelling = false;
  parent_resumed = 0;
  fault = false;
}

unfoldable pub resume_parent : Sequence → Sequence
resume_parent s = record s { parent_resumed = s.parent_resumed + 1 }

-- The constructor of `SecondStage`: an exception of the first result or of the function.
unfoldable pub build : OnResume → ThenFn → Exception ⊎ Script
build (yields v) f = f v
build (raises ex) f = inl ex

-- `second().aw.await_suspend(parent_).resume()` in `kickOffSecond`.
unfoldable pub suspend_second : OnSuspend → Sequence → Sequence
unfolding resume_parent
suspend_second keeps s = s
suspend_second resumes s = resume_parent s
suspend_second (throws ex) s = record s { fault = true }

-- `kickOffSecond` from the construction of the second stage on.
unfoldable pub start_second : Exception ⊎ Script → Sequence → Sequence
unfolding suspend_second resume_parent
start_second (inl ex) s = resume_parent (record s { stage = threw ex })
start_second (inr aw) s =
    if s.cancelling && aw.early_cancel
    then resume_parent (record s { stage = neither })
    else (if aw.is_ready
        then resume_parent (record s { stage = second aw })
        else suspend_second aw.on_suspend (record s { stage = second aw }))

-- In the first stage only, as it asserts; `first_` then holds the executor that it takes out.
unfoldable pub kick_off_second : Sequence → Sequence
unfolding start_second build resume_parent
kick_off_second s =
    if s.cancelling && not s.first_aw.must_resume
    then resume_parent s
    else start_second (build s.first_aw.on_resume s.then_fn) (record s { stage = neither })

unfoldable pub await_early_cancel : Sequence → Sequence × Bool
await_early_cancel s = (record s { cancelling = true }, s.first_aw.early_cancel)

-- `await_suspend`; an exception of the first awaitable's `await_suspend` goes to the caller.
unfoldable pub await_suspend : Sequence → Sequence × Option Exception
unfolding kick_off_second
await_suspend s =
    if s.first_aw.is_ready then (kick_off_second s, none) else (elim s.first_aw.on_suspend [
      | keeps ↦ (s, none)
      | resumes ↦ (kick_off_second s, none)
      | throws ex ↦ (s, some ex)
    ])

unfoldable pub cancel_first : OnCancel → Sequence → Sequence × Bool
unfolding kick_off_second
cancel_first confirms s = (s, true)
cancel_first defers s = (s, false)
cancel_first completes s = (kick_off_second s, false)

unfoldable pub cancel_second : OnCancel → Sequence → Sequence × Bool
unfolding resume_parent
cancel_second confirms s = (s, true)
cancel_second defers s = (s, false)
cancel_second completes s = (resume_parent s, false)

unfoldable pub cancel_stage : Stage → Sequence → Sequence × Bool
unfolding cancel_first cancel_second
cancel_stage first s = cancel_first s.first_aw.on_cancel s
cancel_stage (second aw) s = cancel_second aw.on_cancel s
cancel_stage neither s = (s, false)
cancel_stage (threw ex) s = (s, false)

unfoldable pub await_cancel : Sequence → Sequence × Bool
unfolding cancel_stage
await_cancel s = cancel_stage s.stage (record s { cancelling = true })

-- `await_must_resume`; a second stage that need not resume is destroyed.
unfoldable pub await_must_resume : Sequence → Sequence × Bool
await_must_resume s = elim s.stage [
  | threw ex ↦ (s, true)
  | second aw ↦ if aw.must_resume then (s, true) else (record s { stage = neither }, false)
  | first ↦ (s, false)
  | neither ↦ (s, false)
]

-- `await_resume`: the result, with `none` for a read of an absent second stage.
unfoldable pub await_resume : Sequence → Sequence × Option OnResume
await_resume s = elim s.stage [
  | threw ex ↦ (record s { stage = neither }, some (raises ex))
  | second aw ↦ (record s { stage = neither }, some aw.on_resume)
  | first ↦ (record s { stage = neither; fault = true }, none)
  | neither ↦ (record s { stage = neither; fault = true }, none)
]
