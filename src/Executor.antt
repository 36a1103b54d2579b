-- ===== src/Executor.antt =====
-- corral/corral/Executor.h: the executors of a thread, and how they run what is submitted to them.
-- A callback is a number, and the program says what its function does with executors, so that a
-- callback may submit itself again. The calls that are under way, with the guards that run at their
-- ends, are a stack of frames, and a step takes the front one on. An executor is its place in the
-- list of executors.
pub mod Running
pub mod Entries
pub mod Alone
pub mod Noted
pub mod Fifo
pub mod Fair
pub mod Nested
pub mod Submitted
mod Tests
pub mod Order
pub mod Steps
use hf_qcorral.Prelude.{
  ℕ, zero, suc, ◌+◌, Bool, true, false, not, ◌&&◌, ◌||◌, Option, none, some, List, [], ◌∷◌, ◌++◌,
  ◌==◌, if◌then◌else◌, get_elem?, set,
}

-- `Task` is a function with its argument, known by a number; `run_once` is the one that
-- `runSoon()` submits to another executor.
pub data Task : Type 0 where
  task run_once : ℕ → Task

-- What is left of a function: `run_soon` and `schedule` submit, `wake` is `runSoon()` alone,
-- `drain_now` is `drain()`, and `capture` has the body of its argument.
pub data Body : Type 0 where
  done : Body
  run_soon schedule : ℕ → Task → Body → Body
  wake drain_now : ℕ → Body → Body
  capture : ℕ → Body → Body → Body

-- What each function does.
abbrev pub Program : Type 0
Program = ℕ → Body

-- `ready` is the list that `ready_` points to; `running` and `scheduled` are whether `running_` is
-- set, and `scheduled_`.
pub record Executor : Type 0 where
  pub event_loop : ℕ
  pub ready : List Task
  pub running : Bool
  pub scheduled : Bool

-- Executor::Executor.
unfoldable pub make : ℕ → Executor
make l = record { event_loop = l; ready = []; running = false; scheduled = false }

-- What happens to the callbacks that an executor takes from its queue.
pub data Mark : Type 0 where
  submitted started ended : ℕ → ℕ → Mark

-- `current` is `current()`. `fault` records a current executor that is not running.
pub record World : Type 0 where
  pub executors : List Executor
  pub current : Option ℕ
  pub log : List Mark
  pub fault : Bool

-- A call under way: a body; the end of `capture`, with `oldReady`; the loop of `drain()`, with whether
-- its `b` is what `running_` points to, `prev`, and the callback that it has called; and that of
-- `drain(tmp)`, with what is left of `tmp`. What captures inside a loop has put `ready_` back when the
-- loop goes on, so that `drain()` finds the list there that it was begun with.
pub data Frame : Type 0 where
  body : Body → Frame
  captured : ℕ → List Task → Frame
  drain : ℕ → Bool → Option ℕ → Option ℕ → Frame
  drain_captured : ℕ → List Task → Bool → Option ℕ → Frame

unfoldable pub executor_of : Option Executor → Executor
unfolding make
executor_of none = make 0
executor_of (some x) = x

unfoldable pub executor_at : ℕ → World → Executor
unfolding executor_of
executor_at e w = executor_of (get_elem? w.executors e)

unfoldable pub put_executor : ℕ → Executor → World → World
put_executor e x w = record w { executors = set w.executors e x }

unfoldable pub set_ready : ℕ → List Task → World → World
unfolding executor_at put_executor
set_ready e ts w = put_executor e (record (executor_at e w) { ready = ts }) w

abbrev pub label_of : Task → Option ℕ
label_of (task l) = some l
label_of (run_once e) = none

abbrev pub note : Option ℕ → (ℕ → Mark) → World → World
note none m w = w
note (some l) m w = record w { log = w.log ++ m l ∷ [] }

-- `schedule`.
unfoldable pub submit : ℕ → Task → World → World
unfolding set_ready
submit e t w = note (label_of t) (submitted e) (set_ready e ((executor_at e w).ready ++ t ∷ []) w)

-- What `drain` does before its loop.
unfoldable pub enter : ℕ → World → World
unfolding executor_at put_executor
enter e w = record (put_executor e (record (executor_at e w) { running = true }) w) {
  current = some e;
}

-- `runOnce`.
unfoldable pub call_once : ℕ → World → World × List Frame
unfolding executor_at put_executor enter
call_once e w =
    let w' = put_executor e (record (executor_at e w) { scheduled = false }) w in
    if (executor_at e w).running then (w', []) else (enter e w', drain e true w.current none ∷ [])

-- `current()->runSoon(...)` of `runSoon()`.
unfoldable pub defer : ℕ → ℕ → World → World
unfolding executor_at put_executor submit
defer c e w =
    let w' = put_executor e (record (executor_at e w) { scheduled = true }) w in
    let w'' = submit c (run_once e) w' in
    record w'' { fault = w''.fault || not (executor_at c w'').running }

abbrev pub is_current : Option ℕ → ℕ → World → Bool
is_current none e w = false
is_current (some c) e w =
    not (executor_at e w).scheduled
    && ((executor_at c w).event_loop == (executor_at e w).event_loop)

abbrev pub defer_to : Option ℕ → ℕ → World → World
defer_to none e w = w
defer_to (some c) e w = defer c e w

-- `runSoon()`.
unfoldable pub wake_up : ℕ → World → World × List Frame
unfolding executor_at call_once defer
wake_up e w =
    if (executor_at e w).running
    then (w, [])
    else (if is_current w.current e w then (defer_to w.current e w, []) else call_once e w)

-- The end of a loop: its guards.
unfoldable pub leave : ℕ → Bool → Option ℕ → World → World
unfolding executor_at put_executor
leave e owned prev w =
    let w' = record w { current = prev } in
    if owned then put_executor e (record (executor_at e w) { running = false }) w' else w'

unfoldable pub run_body : Body → World → World × List Frame
unfolding submit wake_up executor_at set_ready enter
run_body done w = (w, [])
run_body (run_soon e t b) w = let (w', fs) = wake_up e (submit e t w) in (w', fs ++ body b ∷ [])
run_body (schedule e t b) w = (submit e t w, body b ∷ [])
run_body (wake e b) w = let (w', fs) = wake_up e w in (w', fs ++ body b ∷ [])
run_body (drain_now e b) w =
    (enter e w, drain e (not (executor_at e w).running) w.current none ∷ body b ∷ [])
run_body (capture e f b) w =
    (set_ready e [] w, body f ∷ captured e (executor_at e w).ready ∷ body b ∷ [])

module _ (program : Program) where
  -- A callback is called.
  unfoldable pub call : Task → World → World × List Frame
  unfolding call_once
  call (task l) w = (w, body (program l) ∷ [])
  call (run_once e) w = call_once e w

  -- A round of the loop of `drain()`, by what is ready.
  unfoldable pub next_ready : ℕ → Bool → Option ℕ → List Task → World → World × List Frame
  unfolding set_ready call leave
  next_ready e owned prev [] w = (leave e owned prev w, [])
  next_ready e owned prev (t ∷ ts) w =
      let (w', fs) = call t (note (label_of t) (started e) (set_ready e ts w)) in
      (w', fs ++ drain e owned prev (label_of t) ∷ [])

  unfoldable pub take_on : Frame → World → World × List Frame
  unfolding run_body next_ready leave call set_ready executor_at enter
  take_on (body b) w = run_body b w
  take_on (captured e old) w = (
    enter e (set_ready e old w),
    drain_captured e (executor_at e w).ready (not (executor_at e w).running) w.current ∷ [],
  )
  take_on (drain e owned prev (some l)) w =
      (record w { log = w.log ++ ended e l ∷ [] }, drain e owned prev none ∷ [])
  take_on (drain e owned prev none) w = next_ready e owned prev (executor_at e w).ready w
  take_on (drain_captured e [] owned prev) w = (leave e owned prev w, [])
  take_on (drain_captured e (t ∷ ts) owned prev) w =
      let (w', fs) = call t w in (w', fs ++ drain_captured e ts owned prev ∷ [])

  -- The front frame is taken on; with none, all is done.
  unfoldable pub step : World × List Frame → World × List Frame
  unfolding take_on
  step (w, []) = (w, [])
  step (w, f ∷ fs) = let (w', new) = take_on f w in (w', new ++ fs)

  unfoldable pub run : ℕ → World × List Frame → World × List Frame
  unfolding step
  run zero c = c
  run (suc fuel) c = run fuel (step c)
