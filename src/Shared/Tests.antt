-- ===== src/Shared/Tests.antt =====
-- A shared task with two parents.
use hf_qcorral.Prelude.{◌≡◌, refl, true, false, List, [], ◌∷◌, ◌++◌, arith, length, replicate}
use hf_qcorral.Awaitable.{keeps, confirms, yields, Script}
use hf_qcorral.ParkingLot.Order.{handles}
use hf_qcorral.Shared.{State, value, incomplete, ready, result, delivered}
use hf_qcorral.Shared.History.{Call, join, complete, wake_next, leave, Log, run}
use hf_qcorral.Shared.Parents.{IsCovered, run-IsCovered, complete_wakes}
use hf_qcorral.Shared.Outcome.{run-delivered}

abbrev task : Script
task = record {
  is_ready = false;
  skippable = false;
  abortable = false;
  early_cancel = false;
  on_suspend = keeps;
  on_cancel = confirms;
  must_resume = true;
  on_resume = yields 4;
}

abbrev two_parents : State
two_parents = record {
  object = task;
  parents = record { item = 1; handle = 10 } ∷ record { item = 2; handle = 20 } ∷ [];
  waking = [];
  result = incomplete;
  fault = false;
}

abbrev waiting_log : Log
waiting_log = record { state = two_parents; joined = 10 ∷ 20 ∷ []; resumed = [] }

abbrev calls : List Call
calls = join 3 30 ∷ leave 1 ∷ complete ∷ wake_next ∷ join 4 40 ∷ []

run-IsCovered_example : IsCovered 20 (run waiting_log calls)
run-IsCovered_example = run-IsCovered 20 waiting_log calls (omega arith)

complete_wakes_example :
    let ps = waiting_log.state.parents ++ waiting_log.state.waking in
    let l' = run waiting_log (complete ∷ replicate (length ps) wake_next) in
    (l'.resumed ≡ waiting_log.resumed ++ handles ps)
    × (l'.state.parents ≡ [])
    × (l'.state.waking ≡ [])
complete_wakes_example = complete_wakes waiting_log

abbrev done_log : Log
done_log = record {
  state = record two_parents { parents = []; result = value 4 };
  joined = 10 ∷ 20 ∷ [];
  resumed = 10 ∷ 20 ∷ [];
}

run-delivered_example :
    let later = (run done_log calls).state in
    (ready later ≡ true)
    × ((result later).1 ≡ delivered done_log.state.result)
    × (later.parents ≡ [])
run-delivered_example = run-delivered done_log calls refl refl
