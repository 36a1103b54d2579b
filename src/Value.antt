-- ===== src/Value.antt =====
-- corral/corral/Value.h: a variable that wakes tasks when an assignment satisfies their predicate.
-- Where `set` is called from within a task, resuming a handle only submits its task to the executor,
-- so that it runs through without a task in between; this is the case that is modelled. Called from
-- outside of tasks, it runs the woken tasks at once, and they may assign the value again (the second
-- note above `set()` in Value.h). The predicates are the caller's code.
mod Tests
pub mod Transitions
use hf_qcorral.Prelude.{
  ℕ, Bool, true, false, not, ◌&&◌, Option, none, some, List, [], ◌∷◌, ◌++◌, ◌==◌, if◌then◌else◌,
}

-- `UntilMatches` and `UntilChanged`, by their predicate `fn_`.
pub data Awaited (T : Type 0) : Type 0 where
  matches : (T → Bool) → Awaited T
  changes : (T → T → Bool) → Awaited T

-- `result_`, which `await_resume` yields.
pub data Outcome (T : Type 0) : Type 0 where
  matched : T → Outcome T
  changed : T → T → Outcome T

-- A linked awaitable: its address, `handle_` and kind.
pub record Waiter (T : Type 0) : Type 0 where
  pub item : ℕ
  pub handle : ℕ
  pub awaited : Awaited T

pub record Value (T : Type 0) : Type 0 where
  pub value : T
  pub parked : List (Waiter T)

module _ {T : Type 0} where
  unfoldable pub unlink : ℕ → List (Waiter T) → List (Waiter T)
  unlink i [] = []
  unlink i (w ∷ ws) = if w.item == i then ws else w ∷ unlink i ws

  -- The constructor of `UntilMatches` tests the stored value; `await_ready` is `has_value()`.
  unfoldable pub ready_result : Awaited T → Value T → Option (Outcome T)
  ready_result (matches fn) v = if fn v.value then some (matched v.value) else none
  ready_result (changes fn) v = none

  -- `AwaitableBase::await_suspend` and `park`.
  unfoldable pub park : Waiter T → List (Waiter T) → List (Waiter T)
  park w ws = unlink w.item ws ++ w ∷ []

  unfoldable pub await_suspend : Waiter T → Value T → Value T
  await_suspend w v = record v { parked = park w v.parked }

  unfoldable pub await_cancel : ℕ → Value T → Value T
  await_cancel i v = record v { parked = unlink i v.parked }

  -- `onChanged`: the result with which the task is resumed, or `none` where it parks again.
  unfoldable pub on_changed : T → T → Awaited T → Option (Outcome T)
  on_changed from to (matches fn) = if fn to then some (matched to) else none
  on_changed from to (changes fn) = if fn from to then some (changed from to) else none

  -- The loop of `set` over the list that it has moved out; `kept` is the new `parked_`.
  unfoldable pub notify :
      T → T → List (Waiter T) → List (Waiter T) → List (Waiter T) × List (ℕ × Outcome T)
  notify from to [] kept = (kept, [])
  notify from to (w ∷ ws) kept = elim (on_changed from to w.awaited) [
    | none ↦ notify from to ws (park w kept)
    | some r ↦ (let (kept', woken) = notify from to ws kept in (kept', (w.handle, r) ∷ woken))
  ]

  -- `set` and `operator=`, with the handles that are resumed and what each will yield.
  unfoldable pub set : T → Value T → Value T × List (ℕ × Outcome T)
  set to v =
      let (kept, woken) = notify v.value to v.parked [] in
      (record { value = to; parked = kept }, woken)

-- `untilEquals`, `untilChanged()` and `untilChanged(from, to)`.
module _ {T : Type 0} (eq : T → T → Bool) where
  unfoldable pub until_equals : T → Awaited T
  until_equals expected = matches (λ v. eq v expected)

  unfoldable pub until_any_change : Awaited T
  until_any_change = changes (λ from to. not (eq from to))

  unfoldable pub until_changed : T → T → Awaited T
  until_changed from to = changes (λ f t. eq f from && eq t to)
