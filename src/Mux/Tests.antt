-- ===== src/Mux/Tests.antt =====
-- Two tasks under `anyOf`.
use hf_qcorral.Prelude.{ℕ, ◌≤◌, List, ◌≡◌, refl, ◌⊎◌, inl, true, false, none, [], ◌∷◌, arith}
use hf_qcorral.Mux.State.{
  Helper, Mux, Script, running, cancelling, confirms, completes, yields, status_of, helper_at,
}
use hf_qcorral.Mux.Combiner.{make, invoke, depth, any_of, await_ready, await_suspend, await_cancel}
use hf_qcorral.Mux.Helper.{resumed}
use hf_qcorral.Mux.Inv.{done}
use hf_qcorral.Mux.Count.{IsRunning, IsFinished, resumed-outcome}
use hf_qcorral.Mux.Cancel.{CancelOutcome, await_cancel-outcome}
use hf_qcorral.Mux.Start.{drive, start-outcome}
use hf_qcorral.Mux.Kickoff.{ready_script, task_script, event_script, kickoff_counts_twice}

abbrev two_tasks : Mux
two_tasks = record {
  helpers =
      record { status = running; script = task_script true completes (yields 1) }
      ∷ record { status = running; script = task_script false completes (yields 2) }
      ∷ [];
  min_ready = 1;
  bound = true;
  count = 0;
  exception = none;
  parent_live = true;
  parent_resumed = 0;
  fault = false;
}

two_tasks-IsRunning : IsRunning two_tasks
two_tasks-IsRunning = record {
  started = (refl, (refl, tt));
  counted = refl;
  waiting = omega arith;
  no_fault = refl;
  live = refl;
  not_resumed = refl;
}

resumed-outcome_example :
    let m' = resumed (invoke (depth two_tasks)) 0 two_tasks in
    (IsRunning m' ⊎ IsFinished m') × (done two_tasks ≤ done m')
unfolding helper_at
resumed-outcome_example = resumed-outcome two_tasks 0 two_tasks-IsRunning (inl refl)

abbrev abortable_task : ℕ → Helper
abortable_task v = record {
  status = running;
  script = record (task_script false confirms (yields v)) { abortable = true };
}

abbrev two_abortable : Mux
two_abortable = record two_tasks { helpers = abortable_task 1 ∷ abortable_task 2 ∷ [] }

two_abortable-IsRunning : IsRunning two_abortable
two_abortable-IsRunning = record {
  started = (refl, (refl, tt));
  counted = refl;
  waiting = omega arith;
  no_fault = refl;
  live = refl;
  not_resumed = refl;
}

await_cancel-outcome_example : CancelOutcome (await_cancel two_abortable)
await_cancel-outcome_example =
    await_cancel-outcome two_abortable two_abortable-IsRunning
      (λ _. ((refl, refl), ((refl, refl), tt)))

abbrev scripts : List Script
scripts = task_script true completes (yields 1) ∷ task_script false confirms (yields 2) ∷ []

start-outcome_example :
    let m = drive (await_suspend (make scripts 1)).0 (1 ∷ 0 ∷ []) in IsRunning m ⊎ IsFinished m
start-outcome_example =
    start-outcome scripts 1 (1 ∷ 0 ∷ [])
      (
        record { busy = refl; keeps_handle = refl },
        (record { busy = refl; keeps_handle = refl }, tt),
      )
      (omega arith)

kickoff_counts_twice_example :
    let m = any_of (
      ready_script 7
      ∷ task_script true confirms (yields 1)
      ∷ event_script false confirms (yields 2)
      ∷ []) in
    let m' = (await_suspend m).0 in
    (await_ready m ≡ false) × (m'.parent_resumed ≡ 1) × (status_of 1 m' ≡ cancelling)
kickoff_counts_twice_example =
    kickoff_counts_twice 7 true false confirms confirms (yields 1) (yields 2)
