-- ===== src/Channel.antt =====
-- corral/corral/Channel.h: an ordered channel over the circular buffer and two parking lots.
-- An operation returns, last, the handles of the tasks that it wakes.
mod Tests
pub mod Bounds
pub mod Order
use hf_qcorral.Prelude.{
  ℕ, ◌+◌, ◌-◌, ◌%◌, Bool, true, false, not, ◌&&◌, ◌||◌, Option, none, some, List, [], ◌++◌, ltb,
  ◌==◌, if◌then◌else◌, size_mod,
}
use hf_qcorral.Queue
use hf_qcorral.Queue.{Queue}
use hf_qcorral.ParkingLot.{Lot, do_suspend, await_cancel, unpark_one, unpark_all}

-- `readers` and `writers` are the `parked_` lists of the two halves.
pub record Channel (A : Type 0) : Type 0 where
  pub buf : Queue A
  pub is_closed : Bool
  pub bounded : Bool
  pub readers : Lot
  pub writers : Lot

module _ {A : Type 0} where
  -- `Channel()`.
  unfoldable pub make_unbounded : Channel A
  make_unbounded = record {
    buf = Queue.make 0;
    is_closed = false;
    bounded = false;
    readers = [];
    writers = [];
  }

  -- `Channel(size_t maxSize)`; `none` where its assertion fails.
  unfoldable pub make_bounded : ℕ → Option (Channel A)
  make_bounded max_size =
      if ltb 0 max_size
      then some (record {
        buf = Queue.make max_size;
        is_closed = false;
        bounded = true;
        readers = [];
        writers = [];
      })
      else none

  abbrev pub size : Channel A → ℕ
  size c = c.buf.size

  abbrev pub is_empty : Channel A → Bool
  is_empty c = Queue.is_empty c.buf

  abbrev pub closed : Channel A → Bool
  closed c = c.is_closed

  abbrev pub full : Channel A → Bool
  full c = (c.bounded && (c.buf.capacity == c.buf.size)) || c.is_closed

  abbrev pub space : Channel A → ℕ
  space c =
      if c.is_closed
      then 0
      else if not c.bounded && not c.is_closed
      then size_mod - 1
      else (c.buf.capacity + size_mod - c.buf.size) % size_mod

  -- `ReadHalf::tryReceive`.
  unfoldable pub try_receive : Channel A → Option A × Channel A × List ℕ
  try_receive c =
      if not (is_empty c)
      then (let (ws, woken) = unpark_one c.writers in
          (Queue.front c.buf, record c { buf = Queue.pop_front c.buf; writers = ws }, woken))
      else (none, c, [])

  -- `WriteHalf::trySend`.
  unfoldable pub try_send : A → Channel A → Bool × Channel A × List ℕ
  try_send u c =
      if closed c || full c
      then (false, c, [])
      else let (rs, woken) = unpark_one c.readers in
        (true, record c { buf = Queue.push_back u c.buf; readers = rs }, woken)

  unfoldable pub close : Channel A → Channel A × List ℕ
  close c =
      let (rs, woken_readers) = unpark_all c.readers in
      let (ws, woken_writers) = unpark_all c.writers in
      (record c { is_closed = true; readers = rs; writers = ws }, woken_readers ++ woken_writers)

  -- `ReadAwaitable`; its `await_resume` is `try_receive`.
  abbrev pub read_ready : Channel A → Bool
  read_ready c = not (is_empty c) || closed c

  unfoldable pub read_suspend : ℕ → ℕ → Channel A → Channel A
  read_suspend i h c = record c { readers = do_suspend i h c.readers }

  unfoldable pub read_cancel : ℕ → Channel A → Channel A
  read_cancel i c = record c { readers = (await_cancel i c.readers).0 }

  -- `WriteAwaitable`; its `await_resume` is `try_send` of the object that it carries.
  abbrev pub write_ready : Channel A → Bool
  write_ready c = closed c || not (full c)

  unfoldable pub write_suspend : ℕ → ℕ → Channel A → Channel A
  write_suspend i h c = record c { writers = do_suspend i h c.writers }

  unfoldable pub write_cancel : ℕ → Channel A → Channel A
  write_cancel i c = record c { writers = (await_cancel i c.writers).0 }

  -- What `~Channel` asserts.
  abbrev pub may_destroy : Channel A → Bool
  may_destroy c = elim c.readers [ [] ↦ elim c.writers [ [] ↦ true | _ ↦ false ] | _ ↦ false ]
