-- ===== src/Semaphore.antt =====
-- corral/corral/Semaphore.h: a counter over a parking lot.
mod Tests
pub mod Count
use hf_qcorral.Prelude.{
  ℕ, ◌<◌, Bool, true, false, List, [], ◌∷◌, ◌++◌, ltb, if◌then◌else◌, inc_size, dec_size,
}
use hf_qcorral.ParkingLot.{Lot, do_suspend, await_cancel, unpark_one}

-- `value_` is a `size_t`.
pub record Semaphore : Type 0 where
  pub value : ℕ
  pub parked : Lot

unfoldable pub make : ℕ → Semaphore
make initial = record { value = initial; parked = [] }

-- `Awaitable::await_ready`.
abbrev pub await_ready : Semaphore → Bool
await_ready s = ltb 0 s.value

-- `Awaitable::await_suspend`.
unfoldable pub await_suspend : ℕ → ℕ → Semaphore → Semaphore
await_suspend i h s = record s { parked = do_suspend i h s.parked }

-- `Awaitable::await_resume`: the counter goes down by one, whatever it is.
unfoldable pub await_resume : Semaphore → Semaphore
await_resume s = record s { value = dec_size s.value }

-- `release()`, with the handles that it resumes.
unfoldable pub release : Semaphore → Semaphore × List ℕ
release s =
    let (ps, hs) = unpark_one s.parked in (record { value = inc_size s.value; parked = ps }, hs)

unfoldable pub cancel : ℕ → Semaphore → Semaphore
cancel i s = record s { parked = (await_cancel i s.parked).0 }

-- `Lock`: whether `sem_` points to the semaphore. A move leaves the source empty, and an
-- assignment destroys what the target held.
abbrev pub Lock : Type 0
Lock = Bool

unfoldable pub lock_move : Lock → Lock × Lock
lock_move source = (source, false)

unfoldable pub lock_destroy : Lock → Semaphore → Semaphore × List ℕ
lock_destroy held s = if held then release s else (s, [])

-- The target takes the lock over, and the old one dies with the parameter: target, source, rest.
unfoldable pub lock_assign : Lock → Lock → Semaphore → Lock × Lock × Semaphore × List ℕ
unfolding lock_move lock_destroy
lock_assign target source s =
    let (lk, source') = lock_move source in
    let (s', hs) = lock_destroy target s in (lk, source', s', hs)
