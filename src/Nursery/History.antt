-- ===== src/Nursery/History.antt =====
-- What can happen to a nursery (Nursery.h).
use hf_qcorral.Prelude.{
  ℕ, ◌+◌, ◌≡◌, Bool, true, false, not, ◌&&◌, ◌||◌, List, [], ◌∷◌, ◌++◌, suc, arith, ◌==◌,
  if◌then◌else◌, ltb, occurrences,
}
use hf_qcorral.Awaitable.{Exception}
use hf_qcorral.Nursery.{
  Action, destroy, resume, Nursery, make, is_set, is_none, add_task, run_captured, cancel,
  store_exception, continuation, open_scope, join_suspend, async_close, resume_parent,
}

-- `opens h t` and `joins h` suspend a parent, `closes c` is `asyncClose`; `adds t` starts a task,
-- `fails t ex` and `ends t` are its calls of its parent; `sends` is a round of what was captured,
-- `runs` a turn of the executor.
pub data NurseryEvent : Type 0 where
  opens : ℕ → ℕ → NurseryEvent
  joins closes adds ends : ℕ → NurseryEvent
  fails : ℕ → Exception → NurseryEvent
  cancels sends runs : NurseryEvent

-- A nursery; the tasks that it was given, those that it cancelled, and those that it destroyed; how
-- often it resumed a parent; whether it was asked to cancel, and the exceptions of its tasks.
pub record Log : Type 0 where
  pub nursery : Nursery
  pub started : List ℕ
  pub sent : List ℕ
  pub destroyed : List ℕ
  pub resumed : ℕ
  pub asked : Bool
  pub failures : List Exception

unfoldable pub begin : Log
begin = record {
  nursery = make;
  started = [];
  sent = [];
  destroyed = [];
  resumed = 0;
  asked = false;
  failures = [];
}

-- When an event can happen: tasks are new, and are started in an open nursery; only a task that is
-- under way ends; there is one parent at most; and the executor takes its turn when what was
-- captured has run.
abbrev pub is_possible : NurseryEvent → Log → Bool
is_possible (opens h t) l =
    l.nursery.executor
    && not (is_set l.nursery.parent)
    && is_none l.nursery.tasks
    && (occurrences t l.started == 0)
is_possible (joins h) l = l.nursery.executor && not (is_set l.nursery.parent)
is_possible (closes c) l = l.nursery.executor && not (is_set l.nursery.parent)
is_possible (adds t) l = l.nursery.executor && (occurrences t l.started == 0)
is_possible (ends t) l = ltb 0 (occurrences t l.nursery.tasks)
is_possible (fails t ex) l = ltb 0 (occurrences t l.nursery.tasks)
is_possible cancels l = true
is_possible sends l = true
is_possible runs l = is_none l.nursery.captured

-- A turn of the executor.
unfoldable pub take_turn : List Action → Log → Log
take_turn [] l = l
take_turn (destroy t ∷ xs) l = record l {
  nursery = record l.nursery { scheduled = xs };
  destroyed = l.destroyed ++ t ∷ [];
}
take_turn (resume p ∷ xs) l = record l {
  nursery = resume_parent p (record l.nursery { scheduled = xs });
  resumed = l.resumed + 1;
}

-- A parent that is not suspended goes on at once.
abbrev pub goes_on : Bool → ℕ
goes_on b = if b then 1 else 0

unfoldable pub apply : NurseryEvent → Log → Log
unfolding take_turn
apply (opens h t) l =
    let (n, ts) = open_scope h t l.nursery in
    record l { nursery = n; started = l.started ++ t ∷ []; sent = l.sent ++ ts }
apply (adds t) l =
    let (n, ts) = add_task t l.nursery in
    record l { nursery = n; started = l.started ++ t ∷ []; sent = l.sent ++ ts }
apply (joins h) l =
    let (n, suspended) = join_suspend h l.nursery in
    record l { nursery = n; resumed = l.resumed + goes_on (not suspended) }
apply (closes c) l =
    let (n, called) = async_close c l.nursery in
    record l { nursery = n; resumed = l.resumed + goes_on called; asked = l.asked || not called }
apply (ends t) l = record l { nursery = continuation t l.nursery }
apply (fails t ex) l = record l {
  nursery = store_exception ex l.nursery;
  failures = l.failures ++ ex ∷ [];
}
apply cancels l = record l { nursery = cancel l.nursery; asked = true }
apply sends l =
    let (n, ts) = run_captured l.nursery in record l { nursery = n; sent = l.sent ++ ts }
apply runs l = take_turn l.nursery.scheduled l

-- After std::terminate() nothing happens.
unfoldable pub step : Log → NurseryEvent → Log
unfolding apply
step l e = if not l.nursery.terminated && is_possible e l then apply e l else l

unfoldable pub run : Log → List NurseryEvent → Log
unfolding step
run l [] = l
run l (e ∷ es) = run (step l e) es

-- What the executor has still to do: resumptions of a parent, and destructions of a task.
abbrev pub resumptions : List Action → ℕ
resumptions [] = 0
resumptions (destroy t ∷ xs) = resumptions xs
resumptions (resume p ∷ xs) = suc (resumptions xs)

module _ (t : ℕ) where
  abbrev pub destructions : List Action → ℕ
  destructions [] = 0
  destructions (destroy u ∷ xs) = (if u == t then 1 else 0) + destructions xs
  destructions (resume p ∷ xs) = destructions xs

  pub destructions-append :
      (xs ys : List Action) → destructions (xs ++ ys) ≡ destructions xs + destructions ys
  destructions-append [] ys = omega arith
  destructions-append (destroy u ∷ xs) ys = omega (arith, destructions-append xs ys)
  destructions-append (resume p ∷ xs) ys = destructions-append xs ys

pub resumptions-append :
    (xs ys : List Action) → resumptions (xs ++ ys) ≡ resumptions xs + resumptions ys
resumptions-append [] ys = omega arith
resumptions-append (destroy u ∷ xs) ys = resumptions-append xs ys
resumptions-append (resume p ∷ xs) ys = omega (arith, resumptions-append xs ys)
