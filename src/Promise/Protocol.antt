-- ===== src/Promise/Protocol.antt =====
-- What can happen to a task, and the stages of its life (Promise.h).
use hf_qcorral.Prelude.{ℕ, ◌≡◌, ◌⊎◌, Bool, true, false, not, List, [], ◌∷◌, if◌then◌else◌, ltb}
use hf_qcorral.Awaitable.{Script}
use hf_qcorral.Promise.{
  Activity, ready, running, suspended, OnResumed, resume, resume_after_cancel, nothing, unset,
  present, gone, Promise, start, resumed, run_step, cancel, await, finish,
}

-- `co_awaits` and `ends` are steps of the body, `runs` is a turn of the executor, `completed` the
-- resumption of the task's handle.
pub data TaskEvent : Type 0 where
  starts runs completed is_cancelled ends : TaskEvent
  co_awaits : Script → TaskEvent

abbrev pub is_running : Activity → Bool
is_running a = elim a [ running c ↦ true | _ ↦ false ]

-- When an event can happen: a task is started once; what has ended takes no more part; the body
-- goes on only while the task runs, the executor has its step only while it is queued, and nobody
-- resumes the handle of a task that is running.
abbrev pub is_possible : TaskEvent → Promise → Bool
is_possible starts p = elim p.parent [ unset ↦ true | _ ↦ false ]
is_possible is_cancelled p = elim p.parent [ gone ↦ false | _ ↦ true ]
is_possible runs p = ltb 0 p.queued
is_possible completed p = elim p.parent [ present ↦ not (is_running p.activity) | _ ↦ false ]
is_possible ends p = elim p.parent [ present ↦ is_running p.activity | _ ↦ false ]
is_possible (co_awaits aw) p = elim p.parent [ present ↦ is_running p.activity | _ ↦ false ]

unfoldable pub apply : TaskEvent → Promise → Promise
apply starts p = start p
apply runs p = run_step p
apply completed p = resumed p
apply is_cancelled p = cancel p
apply ends p = finish p
apply (co_awaits aw) p = await aw p

unfoldable pub step : Promise → TaskEvent → Promise
unfolding apply
step p e = if is_possible e p then apply e p else p

unfoldable pub run : Promise → List TaskEvent → Promise
unfolding step
run p [] = p
run p (e ∷ es) = run (step p e) es

-- Whether the task's step is in the executor's queue, as its state says.
abbrev pub steps : Activity → OnResumed → ℕ
steps (ready c) f = elim f [ nothing ↦ 1 | _ ↦ 0 ]
steps (running c) f = 0
steps (suspended aw) f = 0

-- What waits for its awaitee will take note of its completion, and what is scheduled will not be
-- scheduled again.
abbrev pub IsHooked : Activity → OnResumed → Type 0
IsHooked (ready c) f = (f ≡ resume) ⊎ (f ≡ nothing)
IsHooked (running c) f = Unit {0}
IsHooked (suspended aw) f = (f ≡ resume) ⊎ (f ≡ resume_after_cancel)

-- The task was not started yet; or it is under way, has a parent, and its next step is queued once
-- exactly if it is scheduled; or it has ended, and has told its parent so once.
pub record IsCreated (p : Promise) : Type 0 where
  pub parent : p.parent ≡ unset
  pub queued : p.queued ≡ 0
  pub continued : p.continued ≡ 0
  pub no_fault : p.fault ≡ false
  pub idle : (c : Bool) × (p.activity ≡ ready c)

pub record IsAlive (p : Promise) : Type 0 where
  pub parent : p.parent ≡ present
  pub queued : p.queued ≡ steps p.activity p.on_resume
  pub continued : p.continued ≡ 0
  pub no_fault : p.fault ≡ false
  pub hooked : IsHooked p.activity p.on_resume

pub record IsOver (p : Promise) : Type 0 where
  pub parent : p.parent ≡ gone
  pub queued : p.queued ≡ 0
  pub continued : p.continued ≡ 1
  pub no_fault : p.fault ≡ false

abbrev pub Life : Promise → Type 0
Life p = IsCreated p ⊎ IsAlive p ⊎ IsOver p
