-- ===== src/Promise/Tests.antt =====
-- A task that is cancelled while it waits.
use hf_qcorral.Prelude.{◌≡◌, refl, inl, true, false, List, [], ◌∷◌, ◌++◌}
use hf_qcorral.Awaitable.{keeps, defers, yields, Script}
use hf_qcorral.Promise.{gone, make, start, resumed, run_step, await, cancel}
use hf_qcorral.Promise.Protocol.{
  TaskEvent, starts, runs, completed, is_cancelled, ends, co_awaits, Life, run, step,
}
use hf_qcorral.Promise.Once.{run-Life}
use hf_qcorral.Checker.{reset}
use hf_qcorral.Promise.Checked
use hf_qcorral.Promise.Checked.{run_all, apply_checked}
use hf_qcorral.Promise.Obeyed.{run-obeys}
use hf_qcorral.Promise.Pending.{IsPending, run-IsPending}

abbrev sleep : Script
sleep = record {
  is_ready = false;
  skippable = false;
  abortable = false;
  early_cancel = false;
  on_suspend = keeps;
  on_cancel = defers;
  must_resume = true;
  on_resume = yields 4;
}

abbrev another : Script
another = record sleep { early_cancel = true }

make-Life : Life make
unfolding make
make-Life = inl (record {
  parent = refl;
  queued = refl;
  continued = refl;
  no_fault = refl;
  idle = (false, refl);
})

-- The awaitee is not cancelled at once and completes; the task goes on, and is cancelled when it
-- awaits the next.
abbrev story : List TaskEvent
story = starts ∷ completed ∷ runs ∷ co_awaits sleep ∷ is_cancelled ∷ completed ∷ []

abbrev ending : List TaskEvent
ending = completed ∷ runs ∷ co_awaits another ∷ ends ∷ []

story_ends : (run (run make story) ending).continued ≡ 1
unfolding make run start resumed run_step await cancel
story_ends = refl

run-Life_example : Life (run make story)
run-Life_example = run-Life make story make-Life

run-IsPending_example : IsPending (run (step make is_cancelled) ending)
run-IsPending_example = run-IsPending make ending make-Life

-- With a checker.
checked_story : (run_all Checked.make (story ++ ending)).promise.continued ≡ 1
unfolding Checked.make run_all make start resumed
checked_story = refl

run-obeys_example :
    let s = run_all Checked.make (story ++ ending) in
    (s.checker.fault ≡ false) × (s.promise.parent ≡ gone → (reset s.checker).fault ≡ false)
run-obeys_example = run-obeys (story ++ ending)
