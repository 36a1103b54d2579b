-- ===== src/TryBlock/Semantics.antt =====
-- How a try-block ends, against the synchronous statement of the language (detail/exception.h).
use hf_qcorral.Prelude.{
  ◌≡◌, refl, inl, inr, Bool, true, false, ◌&&◌, Bool-cases, Option, none, some, List, [], ◌∷◌,
  arith, if◌then◌else◌,
}
use hf_qcorral.Awaitable.{Exception}
use hf_qcorral.TryBlock.{
  Stage, try, catch, finally, Block, absent, throws, runs, TaskEnd, returns, raises, is_cancelled,
  Handler, TryBlock, make, store_raised, invoke, enter_finally, dispatch, continue_try,
  await_suspend, task_ends, in_finally,
}

-- How a block ends whose task, if it starts one, ends with `e`.
abbrev pub block_end : Block → TaskEnd → TaskEnd
block_end absent e = returns
block_end (throws ex) e = raises ex
block_end runs e = e

abbrev pub handler_body : Exception → List Handler → Option Block
handler_body ex [] = none
handler_body ex (h ∷ hs) = if h.accepts ex then some h.body else handler_body ex hs

-- What is in flight, and whether a block was completed, when the finally-block begins: after the
-- try-block, and the handler of its exception.
abbrev pub after_catch : Exception → Option Block → TaskEnd → Option Exception × Bool
after_catch ex none e = (some ex, false)
after_catch ex (some b) e = elim (block_end b e) [
  | returns ↦ (none, true)
  | raises ex' ↦ (some ex', false)
  | is_cancelled ↦ (some ex, false)
]

abbrev pub after_try : Block → List Handler → TaskEnd → TaskEnd → Option Exception × Bool
after_try t hs e₁ e₂ = elim (block_end t e₁) [
  | returns ↦ (none, true)
  | is_cancelled ↦ (none, false)
  | raises ex ↦ after_catch ex (handler_body ex hs) e₂
]

abbrev pub is_try : Stage → Bool
is_try st = elim st [ try ↦ true | _ ↦ false ]

abbrev pub is_catch : Stage → Bool
is_catch st = elim st [ catch ↦ true | _ ↦ false ]

-- The task of the try-block, of a handler or of the finally-block ends, if it is running.
unfoldable pub settle : (Stage → Bool) → TaskEnd → TryBlock → TryBlock
settle at e b = if at b.stage && b.task then task_ends e b else b

-- What is in flight after the finally-block, and whether std::terminate() was called.
abbrev pub after_finally : Option Exception → TaskEnd → Option Exception × Bool
after_finally flight returns = (flight, false)
after_finally flight is_cancelled = (flight, false)
after_finally none (raises ex) = (some ex, false)
after_finally (some old) (raises ex) = (some old, true)

-- The statement is over: `flight` and `done` held when the finally-block began, which ended so.
pub record Ends (flight : Option Exception) (done : Bool) (e : TaskEnd) (b : TryBlock)
    : Type 0 where
  pub terminated : b.terminated ≡ (after_finally flight e).1
  pub exception : b.exception ≡ (after_finally flight e).0
  pub completed : b.completed ≡ done
  pub resumed_once : b.parent_resumed ≡ 1
  pub no_task : b.task ≡ false

finally-Ends :
    (b : TryBlock) (f : Block) (e : TaskEnd) (flight : Option Exception) (done : Bool)
    → b.finally_body ≡ f
    → b.exception ≡ flight
    → b.completed ≡ done
    → b.parent_resumed ≡ 0
    → b.terminated ≡ false
    → Ends flight done (block_end f e) (settle in_finally e (enter_finally b))
unfolding settle enter_finally task_ends
finally-Ends b absent e none d h x c p q = ground arith
finally-Ends b absent e (some y) d h x c p q = ground arith
finally-Ends b (throws ex) e none d h x c p q = ground arith
finally-Ends b (throws ex) e (some y) d h x c p q = ground arith
finally-Ends b runs returns flight d h x c p q = ground arith
finally-Ends b runs (raises ex) none d h x c p q = ground arith
finally-Ends b runs (raises ex) (some y) d h x c p q = ground arith
finally-Ends b runs is_cancelled flight d h x c p q = ground arith

stage_entered : (b : TryBlock) (f : Block) → b.finally_body ≡ f → (enter_finally b).stage ≡ finally
unfolding enter_finally
stage_entered b absent h = ground arith
stage_entered b (throws ex) h = ground arith
stage_entered b runs h = ground arith

skip_enter :
    (at : Stage → Bool) (e : TaskEnd) (b : TryBlock)
    → at finally ≡ false
    → settle at e (enter_finally b) ≡ enter_finally b
unfolding settle
skip_enter at e b h = rw (stage_entered b b.finally_body refl, h)

-- A state whose try-block has failed.
abbrev caught : TryBlock → TryBlock
caught b = record b { task = false; stage = catch }

skip_invoke :
    (e : TaskEnd) (body : Block) (b : TryBlock)
    → settle is_try e (invoke enter_finally body (caught b)) ≡ invoke enter_finally body (caught b)
unfolding settle invoke
skip_invoke e absent b = skip_enter is_try e _ refl
skip_invoke e (throws ex) b = skip_enter is_try e _ refl
skip_invoke e runs b = refl

catch-Ends :
    (b : TryBlock) (body f : Block) (e₂ e₃ : TaskEnd) (ex : Exception)
    → b.finally_body ≡ f
    → b.exception ≡ some ex
    → b.completed ≡ false
    → b.parent_resumed ≡ 0
    → b.terminated ≡ false
    → let r = after_catch ex (some body) e₂ in
      Ends r.0 r.1
        (block_end f e₃)
        (settle in_finally e₃ (settle is_catch e₂ (invoke enter_finally body (caught b))))
unfolding settle invoke task_ends
catch-Ends b absent f e₂ e₃ ex h x c p q =
    rw
      (skip_enter is_catch e₂
        (record b { task = false; stage = catch; completed = true; exception = none }) refl)
      (finally-Ends (record b { task = false; stage = catch; completed = true; exception = none }) f
        e₃ none true h refl refl p q)
catch-Ends b (throws ex') f e₂ e₃ ex h x c p q =
    rw (skip_enter is_catch e₂ (store_raised ex' (caught b)) refl)
      (finally-Ends (store_raised ex' (caught b)) f e₃ (some ex') false h refl c p q)
catch-Ends b runs f returns e₃ ex h x c p q =
    finally-Ends (record b { stage = catch; completed = true; exception = none; task = true }) f e₃
      none true h refl refl p q
catch-Ends b runs f (raises ex') e₃ ex h x c p q =
    finally-Ends (store_raised ex' (record b { stage = catch; task = true })) f e₃ (some ex') false
      h refl c p q
catch-Ends b runs f is_cancelled e₃ ex h x c p q =
    finally-Ends (record b { stage = catch; task = true }) f e₃ (some ex) false h x c p q

dispatch-Ends :
    (hs : List Handler) (b : TryBlock) (f : Block) (e₂ e₃ : TaskEnd) (ex : Exception)
    → b.finally_body ≡ f
    → b.exception ≡ some ex
    → b.completed ≡ false
    → b.parent_resumed ≡ 0
    → b.terminated ≡ false
    → let r = after_catch ex (handler_body ex hs) e₂ in
      Ends r.0 r.1
        (block_end f e₃)
        (settle in_finally e₃ (settle is_catch e₂ (dispatch ex hs (caught b))))
unfolding dispatch
dispatch-Ends [] b f e₂ e₃ ex h x c p q =
    rw (skip_enter is_catch e₂ (caught b) refl)
      (finally-Ends (caught b) f e₃ (some ex) false h x c p q)
dispatch-Ends (g ∷ hs) b f e₂ e₃ ex h x c p q = elim (Bool-cases (g.accepts ex)) [
  | inl t ↦ rw t (catch-Ends b g.body f e₂ e₃ ex h x c p q)
  | inr t ↦ rw t (dispatch-Ends hs b f e₂ e₃ ex h x c p q)
]

skip_dispatch :
    (hs : List Handler) (e : TaskEnd) (ex : Exception) (b : TryBlock)
    → settle is_try e (dispatch ex hs (caught b)) ≡ dispatch ex hs (caught b)
unfolding dispatch
skip_dispatch [] e ex b = skip_enter is_try e (caught b) refl
skip_dispatch (g ∷ hs) e ex b = elim (Bool-cases (g.accepts ex)) [
  | inl t ↦ rw t (skip_invoke e g.body b)
  | inr t ↦ rw t (skip_dispatch hs e ex b)
]

early_cancel-enter_finally :
    (b : TryBlock) (f : Block)
    → b.finally_body ≡ f
    → (enter_finally b).early_cancel ≡ b.early_cancel
unfolding enter_finally
early_cancel-enter_finally b absent h = ground arith
early_cancel-enter_finally b (throws ex) h = ground arith
early_cancel-enter_finally b runs h = ground arith

early_cancel-invoke :
    (b : TryBlock) (body : Block)
    → (invoke enter_finally body (caught b)).early_cancel ≡ b.early_cancel
unfolding invoke
early_cancel-invoke b absent =
    early_cancel-enter_finally
      (record b { task = false; stage = catch; completed = true; exception = none }) _ refl
early_cancel-invoke b (throws ex) = early_cancel-enter_finally (store_raised ex (caught b)) _ refl
early_cancel-invoke b runs = refl

early_cancel-dispatch :
    (b : TryBlock) (hs : List Handler) (ex : Exception)
    → (dispatch ex hs (caught b)).early_cancel ≡ b.early_cancel
unfolding dispatch
early_cancel-dispatch b [] ex = early_cancel-enter_finally (caught b) _ refl
early_cancel-dispatch b (g ∷ hs) ex = elim (Bool-cases (g.accepts ex)) [
  | inl t ↦ rw t (early_cancel-invoke b g.body)
  | inr t ↦ rw t (early_cancel-dispatch b hs ex)
]

-- Nothing is cancelled early here.
await_suspend_started :
    (t : Block) (hs : List Handler) (f : Block)
    → await_suspend (make t hs f) ≡ invoke continue_try t (make t hs f)
unfolding await_suspend make invoke
await_suspend_started absent hs f =
    let h = early_cancel-enter_finally (record (make absent hs f) { completed = true }) f refl in
    ground arith
await_suspend_started (throws ex) hs f =
    let h = early_cancel-dispatch (record (make (throws ex) hs f) { exception = some ex }) hs ex in
    ground arith
await_suspend_started runs hs f = ground arith

-- A try-block runs as the statement of the language does: when
-- the tasks of its try-block, of the handler that its exception selects and of its finally-block
-- have ended (those of them that were started) as e₁, e₂ and e₃ say, its parent has been resumed
-- exactly once, no task is running, `exception` holds the exception that leaves the statement, if
-- any, `completed` holds exactly if the try-block or a handler ran to its end, and std::terminate()
-- was called exactly if the finally-block raised with an exception in flight.
pub run-Ends :
    (t : Block) (hs : List Handler) (f : Block) (e₁ e₂ e₃ : TaskEnd)
    → let r = after_try t hs e₁ e₂ in
      Ends r.0 r.1
        (block_end f e₃)
        (settle in_finally e₃ (settle is_catch e₂ (settle is_try e₁ (await_suspend (make t hs f)))))
unfolding await_suspend settle make invoke continue_try task_ends
run-Ends absent hs f e₁ e₂ e₃ =
    let b = record (make absent hs f) { completed = true } in
    rw
      (
        await_suspend_started absent hs f,
        skip_enter is_try e₁ b refl,
        skip_enter is_catch e₂ b refl,
      )
      (finally-Ends b f e₃ none true refl refl refl refl refl)
run-Ends (throws ex) hs f e₁ e₂ e₃ =
    let b = record (make (throws ex) hs f) { exception = some ex } in
    rw (await_suspend_started (throws ex) hs f, skip_dispatch hs e₁ ex b)
      (dispatch-Ends hs b f e₂ e₃ ex refl refl refl refl refl)
run-Ends runs hs f returns e₂ e₃ =
    let b = record (make runs hs f) { completed = true; task = true } in
    rw (skip_enter is_catch e₂ b refl) (finally-Ends b f e₃ none true refl refl refl refl refl)
run-Ends runs hs f (raises ex) e₂ e₃ =
    dispatch-Ends hs (record (make runs hs f) { exception = some ex; task = true }) f e₂ e₃ ex refl
      refl refl refl refl
run-Ends runs hs f is_cancelled e₂ e₃ =
    let b = record (make runs hs f) { task = true } in
    rw (skip_enter is_catch e₂ b refl) (finally-Ends b f e₃ none false refl refl refl refl refl)
