-- ===== src/Awaitable.antt =====
-- The awaitables that the combiners and sequences are given (corral/corral/concepts.h,
-- AwaitableAdapter in corral/corral/detail/utility.h). An awaitable is code of the user, so it is a
-- parameter: a script with the answers that it gives when its methods are called.
use hf_qcorral.Prelude.{ℕ, Bool}

-- An exception, by what tells it from others.
abbrev pub Exception : Type 0
Exception = ℕ

-- `await_suspend` keeps the handle, resumes it at once, or throws.
pub data OnSuspend : Type 0 where
  keeps resumes : OnSuspend
  throws : Exception → OnSuspend

-- `await_cancel` returns true; or it returns false, having resumed the handle meanwhile or not.
pub data OnCancel : Type 0 where
  confirms defers completes : OnCancel

-- `await_resume` yields a value, or throws.
pub data OnResume : Type 0 where
  yields : ℕ → OnResume
  raises : Exception → OnResume

-- `skippable` and `abortable` are whether the type says that `await_early_cancel` and `await_cancel`
-- always return true.
pub record Script : Type 0 where
  pub is_ready : Bool
  pub skippable : Bool
  pub abortable : Bool
  pub early_cancel : Bool
  pub on_suspend : OnSuspend
  pub on_cancel : OnCancel
  pub must_resume : Bool
  pub on_resume : OnResume
