-- ===== src/Sequence/Tests.antt =====
-- A task and then another that is made from its result.
use hf_qcorral.Prelude.{◌≡◌, refl, inr, true, false, some}
use hf_qcorral.Awaitable.{keeps, confirms, yields, Script}
use hf_qcorral.Sequence.{Sequence, kick_off_second, await_resume, first}
use hf_qcorral.Sequence.Outcome.{
  IsServed, SuspendsQuietly, compose, kick_off_second-IsServed, kick_off_second-compose,
}
use hf_qcorral.Sequence.Cancel.{survives, Reports, kick_off_second-survives}

abbrev task : Script
task = record {
  is_ready = false;
  skippable = false;
  abortable = false;
  early_cancel = false;
  on_suspend = keeps;
  on_cancel = confirms;
  must_resume = true;
  on_resume = yields 4;
}

abbrev two_tasks : Sequence
two_tasks = record {
  first_aw = task;
  then_fn = λ v. inr (record task { on_resume = yields v });
  stage = first;
  cancelling = false;
  parent_resumed = 0;
  fault = false;
}

two_tasks-quiet : SuspendsQuietly two_tasks.then_fn
two_tasks-quiet v aw ex e t = cc

kick_off_second-IsServed_example : IsServed (kick_off_second two_tasks)
kick_off_second-IsServed_example = kick_off_second-IsServed two_tasks refl refl two_tasks-quiet

kick_off_second-compose_example :
    (await_resume (kick_off_second two_tasks)).1 ≡ some (compose (yields 4) two_tasks.then_fn)
kick_off_second-compose_example = kick_off_second-compose two_tasks refl

abbrev cancelled_tasks : Sequence
cancelled_tasks = record two_tasks { cancelling = true }

kick_off_second-survives_example :
    Reports
      (survives task two_tasks.then_fn)
      (compose (yields 4) two_tasks.then_fn)
      (kick_off_second cancelled_tasks)
kick_off_second-survives_example = kick_off_second-survives cancelled_tasks refl refl
