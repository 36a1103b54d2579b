-- ===== src/TryBlock.antt =====
-- corral/corral/detail/exception.h: TryBlock, asynchronous try, catch and finally.
-- The blocks are code of the user. A `Block` says what happens when its lambda is called, and
-- `TaskEnd` how a task that it started ends; ends are events that the model is given.
mod Tests
pub mod Semantics
pub mod Rethrow
use hf_qcorral.Prelude.{
  ℕ, ◌+◌, Bool, true, false, not, ◌&&◌, ◌||◌, Option, none, some, List, [], ◌∷◌, if◌then◌else◌,
}
use hf_qcorral.Awaitable.{Exception}

pub data Stage : Type 0 where
  try catch finally : Stage

-- The lambda is `Void`, throws before it returns a task, or returns a task, which is started.
pub data Block : Type 0 where
  absent : Block
  throws : Exception → Block
  runs : Block

pub data TaskEnd : Type 0 where
  returns : TaskEnd
  raises : Exception → TaskEnd
  is_cancelled : TaskEnd

-- A catch-block: which exceptions its parameter accepts (all, for an Ellipsis), and its lambda.
pub record Handler : Type 0 where
  pub accepts : Exception → Bool
  pub body : Block

-- `task` is whether `task_` holds a running task. `cancel_sent` counts the calls of
-- `task_->cancel()`, `parent_resumed` those of the parent's handle, and `terminated` records
-- std::terminate().
pub record TryBlock : Type 0 where
  pub try_body : Block
  pub handlers : List Handler
  pub finally_body : Block
  pub stage : Stage
  pub early_cancel : Bool
  pub completed : Bool
  pub exception : Option Exception
  pub task : Bool
  pub cancel_sent : ℕ
  pub parent_resumed : ℕ
  pub terminated : Bool

unfoldable pub make : Block → List Handler → Block → TryBlock
make t hs f = record {
  try_body = t;
  handlers = hs;
  finally_body = f;
  stage = try;
  early_cancel = false;
  completed = false;
  exception = none;
  task = false;
  cancel_sent = 0;
  parent_resumed = 0;
  terminated = false;
}

unfoldable pub store_success : TryBlock → TryBlock
store_success b = elim b.stage [ finally ↦ b | _ ↦ record b { completed = true; exception = none } ]

unfoldable pub store_raised : Exception → TryBlock → TryBlock
store_raised ex b = record b { exception = some ex }

-- Two exceptions in flight end the program.
unfoldable pub store_exception : Exception → TryBlock → TryBlock
unfolding store_raised
store_exception ex b = elim b.stage [
  | finally ↦ (elim b.exception [
    | some old ↦ record b { terminated = true }
    | none ↦ store_raised ex b
  ])
  | _ ↦ store_raised ex b
]

-- `invoke`, with `next` for the `continuation` that follows when no task is started.
unfoldable pub invoke : (TryBlock → TryBlock) → Block → TryBlock → TryBlock
unfolding store_success store_exception
invoke next absent b = next (store_success b)
invoke next (throws ex) b = next (store_exception ex b)
invoke next runs b = record b { task = true }

-- `continuation` in the FINALLY stage: the parent goes on.
unfoldable pub continue_finally : TryBlock → TryBlock
continue_finally b = record b { task = false; parent_resumed = b.parent_resumed + 1 }

-- `stage_ = FINALLY; return invoke(finallyLambda_);`
unfoldable pub enter_finally : TryBlock → TryBlock
unfolding invoke continue_finally
enter_finally b =
    invoke continue_finally b.finally_body (record b { task = false; stage = finally })

-- `dispatchException`: the first handler that accepts the exception, or none.
unfoldable pub dispatch : Exception → List Handler → TryBlock → TryBlock
unfolding invoke enter_finally
dispatch ex [] b = enter_finally b
dispatch ex (h ∷ hs) b = if h.accepts ex then invoke enter_finally h.body b else dispatch ex hs b

-- `continuation` in the TRY stage.
unfoldable pub continue_try : TryBlock → TryBlock
unfolding dispatch enter_finally
continue_try b = elim b.exception [
  | some ex ↦ dispatch ex b.handlers (record b { task = false; stage = catch })
  | none ↦ enter_finally b
]

unfoldable pub continuation : TryBlock → TryBlock
unfolding continue_try enter_finally continue_finally
continuation b = elim b.stage [
  | try ↦ continue_try b
  | catch ↦ enter_finally b
  | finally ↦ continue_finally b
]

unfoldable pub send_cancel : TryBlock → TryBlock
send_cancel b = record b { cancel_sent = b.cancel_sent + 1 }

abbrev pub in_finally : Stage → Bool
in_finally st = elim st [ finally ↦ true | _ ↦ false ]

unfoldable pub await_early_cancel : TryBlock → TryBlock × Bool
await_early_cancel b = (record b { early_cancel = true }, false)

unfoldable pub await_suspend : TryBlock → TryBlock
unfolding invoke continue_try send_cancel
await_suspend b =
    let b' = invoke continue_try b.try_body b in
    if not (in_finally b'.stage) && (b'.task && b'.early_cancel) then send_cancel b' else b'

-- The finally-block is never cancelled.
unfoldable pub await_cancel : TryBlock → TryBlock × Bool
unfolding send_cancel
await_cancel b = (if not (in_finally b.stage) && b.task then send_cancel b else b, false)

abbrev pub await_must_resume : TryBlock → Bool
await_must_resume b = b.completed || (elim b.exception [ some ex ↦ true | none ↦ false ])

-- `await_resume` rethrows the exception, if there is one.
abbrev pub await_resume : TryBlock → Option Exception
await_resume b = b.exception

-- The running task ends: it stores its outcome with its parent, the block, and continues there.
unfoldable pub task_ends : TaskEnd → TryBlock → TryBlock
unfolding store_success store_exception continuation
task_ends returns b = continuation (store_success b)
task_ends (raises ex) b = continuation (store_exception ex b)
task_ends is_cancelled b = continuation b
