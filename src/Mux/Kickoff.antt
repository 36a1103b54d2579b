-- ===== src/Mux/Kickoff.antt =====
-- A mux that completes while it starts its awaitables.
use hf_qcorral.Prelude.{ℕ, ◌≡◌, refl, Bool, true, false, [], ◌∷◌}
use hf_qcorral.Mux.State.{
  cancelling, keeps, defers, yields, OnResume, OnCancel, Script, status_of, helper_at, set_status,
  with_status, unreachable,
}
use hf_qcorral.Mux.Helper.{suspend, is_ready, cancel}
use hf_qcorral.Mux.Combiner.{any_of, await_ready, await_suspend}

-- Ready at once.
abbrev pub ready_script : ℕ → Script
ready_script v = record {
  is_ready = true;
  skippable = true;
  abortable = false;
  early_cancel = true;
  on_suspend = keeps;
  on_cancel = defers;
  must_resume = true;
  on_resume = yields v;
}

-- Has to be started even if it was cancelled, and takes its time, as a task does.
abbrev pub task_script : Bool → OnCancel → OnResume → Script
task_script must on_cancel on_resume = record {
  is_ready = false;
  skippable = false;
  abortable = false;
  early_cancel = false;
  on_suspend = keeps;
  on_cancel = on_cancel;
  must_resume = must;
  on_resume = on_resume;
}

-- Not ready, and can be skipped, as an untriggered event.
abbrev pub event_script : Bool → OnCancel → OnResume → Script
event_script must on_cancel on_resume = record {
  is_ready = false;
  skippable = true;
  abortable = false;
  early_cancel = true;
  on_suspend = keeps;
  on_cancel = on_cancel;
  must_resume = must;
  on_resume = on_resume;
}

-- In `anyOf(ready, task, event)` the ready awaitable completes the mux while it is being started.
-- The event is then cancelled, and counted, before its turn to start; at its turn it is counted
-- again. So the parent is resumed although the task is still being cancelled.
pub kickoff_counts_twice :
    (v : ℕ) (must must' : Bool) (on_cancel on_cancel' : OnCancel) (on_resume on_resume' : OnResume)
    → let m = any_of (
        ready_script v
        ∷ task_script must on_cancel on_resume
        ∷ event_script must' on_cancel' on_resume'
        ∷ []) in
      let m' = (await_suspend m).0 in
      (await_ready m ≡ false) × (m'.parent_resumed ≡ 1) × (status_of 1 m' ≡ cancelling)
unfolding any_of await_ready await_suspend suspend helper_at set_status with_status unreachable
    is_ready cancel
kickoff_counts_twice v must must' on_cancel on_cancel' on_resume on_resume' = (refl, refl, refl)
