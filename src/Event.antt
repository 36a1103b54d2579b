-- ===== src/Event.antt =====
-- corral/corral/Event.h: a level-triggered event over a parking lot.
mod Tests
pub mod Level
use hf_qcorral.Prelude.{ℕ, Bool, true, false, List, [], ◌∷◌, ◌++◌, if◌then◌else◌}
use hf_qcorral.ParkingLot.{Lot, do_suspend, await_cancel, unpark_all}

-- `triggered_`, and the parking lot that Event derives from.
pub record Event : Type 0 where
  pub is_triggered : Bool
  pub parked : Lot

unfoldable pub make : Event
make = record { is_triggered = false; parked = [] }

-- `trigger()`, with the handles that it resumes.
unfoldable pub trigger : Event → Event × List ℕ
trigger e = let (ps, hs) = unpark_all e.parked in (record { is_triggered = true; parked = ps }, hs)

-- `triggered()`, `get() const` and `Awaitable::operator bool`.
abbrev pub triggered : Event → Bool
triggered e = e.is_triggered

-- `Awaitable::await_ready`.
abbrev pub await_ready : Event → Bool
await_ready e = triggered e

-- `Awaitable::await_suspend`.
unfoldable pub await_suspend : ℕ → ℕ → Event → Event
await_suspend i h e = record e { parked = do_suspend i h e.parked }

-- A task with handle `h` awaits the event: it goes on at once if the event is ready.
unfoldable pub await_event : ℕ → ℕ → Event → Event × List ℕ
unfolding await_suspend
await_event i h e = if await_ready e then (e, h ∷ []) else (await_suspend i h e, [])

unfoldable pub cancel : ℕ → Event → Event
cancel i e = record e { parked = (await_cancel i e.parked).0 }
