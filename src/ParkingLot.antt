-- ===== src/ParkingLot.antt =====
-- corral/corral/detail/ParkingLot.h and corral/corral/ParkingLot.h: the wait queue that ParkingLot,
-- Event, Semaphore and the halves of Channel share.
-- `parked_` is a list of the linked awaitables, oldest first. An item stands for the address of
-- the awaitable, a handle for its `handle_`. Resuming a handle submits the task to the executor,
-- so an operation returns the handles that it resumes, in order, and no task runs inside it: the
-- calls modelled are those made from within a task (Executor::runSoon only queues there).
mod Tests
pub mod Order
pub mod Linked
use hf_qcorral.Prelude.{
  ℕ, Bool, true, false, Option, none, some, List, [], ◌∷◌, ◌++◌, map, ◌==◌, if◌then◌else◌,
}

pub record Parked : Type 0 where
  pub item : ℕ
  pub handle : ℕ

abbrev pub Lot : Type 0
Lot = List Parked

-- `IntrusiveListItem::unlink`: no effect on an item that is not linked.
unfoldable pub unlink : ℕ → Lot → Lot
unlink i [] = []
unlink i (p ∷ ps) = if p.item == i then ps else p ∷ unlink i ps

-- `Parked::doSuspend`, with the `unlink` that `IntrusiveList::push_back` begins with.
unfoldable pub do_suspend : ℕ → ℕ → Lot → Lot
do_suspend i h ps = unlink i ps ++ record { item = i; handle = h } ∷ []

-- `Parked::await_cancel` always succeeds.
unfoldable pub await_cancel : ℕ → Lot → Lot × Bool
await_cancel i ps = (unlink i ps, true)

unfoldable pub peek : Lot → Option Parked
peek [] = none
peek (p ∷ ps) = some p

-- `unparkOne`, with `Parked::unpark` of the front.
unfoldable pub unpark_one : Lot → Lot × List ℕ
unpark_one [] = ([], [])
unpark_one (p ∷ ps) = (ps, p.handle ∷ [])

-- The loop of `unparkAll` over the list that it has moved out.
unfoldable pub unpark_moved : Lot → List ℕ
unpark_moved [] = []
unpark_moved (p ∷ ps) = p.handle ∷ unpark_moved ps

unfoldable pub unpark_all : Lot → Lot × List ℕ
unfolding unpark_moved
unpark_all ps = ([], unpark_moved ps)
