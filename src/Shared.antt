-- ===== src/Shared.antt =====
-- corral/corral/Shared.h: a shared operation with several parents. The operation is an awaitable of
-- the user, so it is a script of answers. A parent is resumed by its handle, and resuming one may
-- cancel another, so the loop of `invoke` is taken step by step: `waking` is its local list.
pub mod History
pub mod Parents
pub mod Outcome
mod Tests
use hf_qcorral.Prelude.{
  ℕ, Bool, true, false, not, ◌&&◌, ◌||◌, Option, none, some, List, [], ◌∷◌, ◌++◌, ◌==◌,
  if◌then◌else◌,
}
use hf_qcorral.Awaitable.{
  Exception, OnSuspend, keeps, resumes, throws, OnCancel, confirms, defers, completes, OnResume,
  yields, raises, Script,
}
use hf_qcorral.ParkingLot.{Parked, Lot, unlink}

-- The variant `result_`.
pub data Result : Type 0 where
  incomplete cancel_pending cancelling cancelled : Result
  value : ℕ → Result
  exception : Exception → Result

-- Shared::State. `parents` and `waking` hold awaitables by address, with `parent_`; a new call of
-- `invoke` puts its list in front of those that are still being worked on. `fault` records an
-- assertion that failed.
pub record State : Type 0 where
  pub object : Script
  pub parents : Lot
  pub waking : Lot
  pub result : Result
  pub fault : Bool

unfoldable pub make : Script → State
make aw = record { object = aw; parents = []; waking = []; result = incomplete; fault = false }

-- `result_.index() >= Cancelling`.
unfoldable pub closed : State → Bool
closed s = elim s.result [ cancelling ↦ true | cancelled ↦ true | _ ↦ false ]

abbrev pub is_incomplete : Result → Bool
is_incomplete r = elim r [ incomplete ↦ true | _ ↦ false ]

abbrev pub is_none : Lot → Bool
is_none [] = true
is_none (p ∷ ps) = false

unfoldable pub ready : State → Bool
ready s = not (is_incomplete s.result) || (is_none s.parents && s.object.is_ready)

-- `earlyCancel`, with whether the awaitable keeps its `state_`.
unfoldable pub early_cancel : State → State × Bool × Bool
early_cancel s =
    if is_none s.parents && is_incomplete s.result
    then (if s.object.early_cancel
        then (record s { result = cancelled }, true, false)
        else (record s { result = cancel_pending }, false, true))
    else (s, true, false)

-- `invoke` up to its loop.
unfoldable pub invoke : State → State
invoke s =
    let s' = record s { parents = []; waking = s.parents ++ s.waking } in
    elim s.result [
      | cancelling ↦ record s' { result = if s.object.must_resume then incomplete else cancelled }
      | _ ↦ s'
    ]

-- One round of its loop: the front is unlinked and its handle resumed.
unfoldable pub wake : State → State × List ℕ
wake s = elim s.waking [ [] ↦ (s, []) | p ∷ ps ↦ (record s { waking = ps }, p.handle ∷ []) ]

-- What `await_suspend` of the operation does.
unfoldable pub start : OnSuspend → State → State
unfolding invoke
start keeps s = s
start resumes s = invoke s
start (throws ex) s = invoke (record s { result = exception ex })

-- `suspend`, for the awaitable `i` whose `parent_` is `h`.
unfoldable pub suspend : ℕ → ℕ → State → State
unfolding start
suspend i h s =
    let s' = record s {
      parents = unlink i s.parents ++ record { item = i; handle = h } ∷ [];
      waking = unlink i s.waking;
    } in
    if is_none s.parents
    then start s.object.on_suspend
        (record s' { result = elim s.result [ cancel_pending ↦ cancelling | r ↦ r ] })
    else s'

-- What `result` finds, once it has asked the operation.
abbrev pub fetched : OnResume → Result
fetched (yields v) = value v
fetched (raises ex) = exception ex

-- What the parent gets: the value, the exception of the operation, or (`none`) a
-- std::runtime_error.
abbrev pub delivered : Result → Option OnResume
delivered r = elim r [ value v ↦ some (yields v) | exception ex ↦ some (raises ex) | _ ↦ none ]

unfoldable pub result : State → State × Option OnResume
result s =
    let asked = fetched s.object.on_resume in
    elim s.result [
      | incomplete ↦ (record s { result = asked }, delivered asked)
      | cancel_pending ↦ (record s { result = asked }, delivered asked)
      | r ↦ (s, delivered r)
    ]

-- The end of `cancel` for the only parent, by what `await_cancel` of the operation did. The last
-- component is whether the awaitable keeps its `state_`.
unfoldable pub forward_cancel : OnCancel → ℕ → State → State × Bool × Bool
unfolding invoke
forward_cancel confirms i s = (
  record s { result = cancelled; parents = unlink i s.parents; waking = unlink i s.waking },
  true,
  false,
)
forward_cancel defers i s = (s, false, true)
forward_cancel completes i s = (invoke s, false, true)

abbrev pub drop_parent : ℕ → State → State
drop_parent i s = record s { parents = unlink i s.parents; waking = unlink i s.waking }

unfoldable pub cancel : ℕ → State → State × Bool × Bool
unfolding forward_cancel
cancel i s = elim s.parents [
  | p ∷ [] ↦
      forward_cancel s.object.on_cancel i
        (record s { result = cancelling; fault = s.fault || not (p.item == i) })
  | _ ↦ (drop_parent i s, true, false)
]

-- Its assertion that an operation which always succeeds in being cancelled has no result is left out.
unfoldable pub must_resume : State → Bool
must_resume s = elim s.result [
  | cancel_pending ↦ s.object.must_resume
  | cancelled ↦ false
  | _ ↦ true
]

-- The methods of Shared::Awaitable on `state_`, which is null once the awaitable is detached.
abbrev pub await_ready : Option State → Bool
await_ready none = true
await_ready (some s) = ready s

abbrev pub await_must_resume : Option State → Bool
await_must_resume none = false
await_must_resume (some s) = must_resume s
