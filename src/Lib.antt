-- ===== src/Lib.antt =====
-- Verification of corral, a C++20 library of coroutines with structured concurrency
-- (corral/corral/, a header-only library).
--
-- The parts and their files:
-- - Queue.antt (corral/corral/detail/Queue.h): the ring buffer under channels and the executor.
--   `buffer_` is a list of cells that may be empty, `head_` and `tail_` are indices into it, and
--   `push_back`, `pop_front`, `front` and `grow` are named as in the source; Queue/Window.antt has
--   the lemmas on the occupied cells, Queue/Refine.antt relates a queue to the list that it holds.
-- - ParkingLot.antt (corral/corral/detail/ParkingLot.h, corral/corral/ParkingLot.h): the tasks that
--   wait for something, in order. Events, semaphores and channels are parking lots. An awaitable
--   has its address `item` and the handle that it resumes.
-- - Event.antt (corral/corral/Event.h), Semaphore.antt (corral/corral/Semaphore.h), Channel.antt
--   (corral/corral/Channel.h): the client types over parking lots; a channel has one for each half,
--   and a queue.
-- - Value.antt (corral/corral/Value.h): a variable that wakes tasks by a predicate on its
--   transitions.
-- - Awaitable.antt: the interface of an awaitable. The awaitables that are given to combiners and
--   sequences are code of the user; a script holds the answers of their methods, whatever they are.
-- - Mux.antt (corral/corral/detail/wait.h): anyOf, mostOf and allOf. Mux/State.antt has the data,
--   Mux/Helper.antt MuxHelper, and Mux/Combiner.antt MuxBase with MuxTuple and MuxRange;
--   Mux/Done.antt, Mux/Inv.antt, Mux/Works.antt and Mux/Count.antt relate the counter to the
--   awaitables that have ended, Mux/Abort.antt and Mux/Cancel.antt are about cancellation by the parent, Mux/Start.antt
--   starts and drives a mux, and Mux/Kickoff.antt has the case of a mux that completes while it is
--   being started.
-- - Sequence.antt (corral/corral/detail/Sequence.h): an awaitable and then another made from its
--   result.
-- - TryBlock.antt (corral/corral/detail/exception.h): asynchronous try, catch and finally;
--   TryBlock/Rethrow.antt is RethrowCurrentException.
-- - Shared.antt (corral/corral/Shared.h): one operation that several tasks await. Shared/History.antt
--   has the histories of calls, Shared/Parents.antt is about who is woken, Shared/Outcome.antt about
--   what the parents get.
-- - Promise.antt (corral/corral/detail/Promise.h): BasePromise, the state machine of a task.
--   Promise/Protocol.antt has the events of its life, Promise/Pause.antt and Promise/Once.antt are
--   about how it ends, Promise/Pending.antt about requests to cancel it.
-- - Nursery.antt (corral/corral/Nursery.h): tasks with a common parent. Nursery/History.antt has the
--   histories of a nursery, Nursery/Stage.antt, Nursery/Joined.antt and Nursery/Life.antt are about
--   its parent,
--   Nursery/Fate.antt, Nursery/Requests.antt and Nursery/Reach.antt about each task,
--   Nursery/Failure.antt about exceptions.
-- - IntrusiveList.antt (corral/corral/detail/IntrusiveList.h): the linked list under parking lots,
--   nurseries and shared awaitables, with its pointers. IntrusiveList/Links.antt is about the chain
--   of pointers, IntrusiveList/Refine.antt and IntrusiveList/Calls.antt relate it to a list.
-- - Checker.antt (corral/corral/detail/utility.h): AwaitableStateChecker, which asserts the protocol
--   of awaitables. Promise/Checked.antt has the task that uses it; Promise/Guarded.antt,
--   Promise/Asserted.antt and Promise/Obeyed.antt are about its assertions, Promise/Erased.antt about
--   the task without it.
-- - Executor.antt (corral/corral/Executor.h): the executors of a thread and the calls that are under
--   way. What a callback does is a parameter, so that it may submit itself again. Executor/Running.antt,
--   Executor/Entries.antt, Executor/Alone.antt and Executor/Steps.antt are about what runs at a
--   time, Executor/Order.antt, Executor/Noted.antt, Executor/Fifo.antt and Executor/Fair.antt about
--   the order of callbacks, Executor/Submitted.antt and Executor/Nested.antt about two submissions
--   to another executor.
-- - CbPortal.antt (corral/corral/CBPortal.h): a callback that a task awaits. CbPortal/Delivery.antt
--   and CbPortal/Pace.antt are about its arguments, CbPortal/Held.antt and CbPortal/Cancel.antt about
--   cancellation.
-- - IntrusivePtr.antt (corral/corral/detail/IntrusivePtr.h): pointers that count references.
--   IntrusivePtr/Counts.antt is about the count, IntrusivePtr/Life.antt about deletion.
-- - Xmodem.antt (corral/corral/qt/corralXModem.cpp): file transfer over a serial device.
--   Xmodem/Frame.antt is about a frame, Xmodem/Transfer.antt about a transfer without a fault,
--   Xmodem/Failed.antt about a bad block.
-- - Prelude.antt: Boolean tests, lists and size_t over the native numbers.
-- Each component has its witnesses and tests in a module Tests.
--
-- State is passed explicitly: an operation takes the object and returns it with what it yields. The
-- library has one thread. Resuming the handle of a task submits the task to the executor, so the
-- operations of events, semaphores, channels and values return the handles that they resume, in
-- order, and run through without a task in between; the proxies of combiners, sequences and
-- try-blocks run at once, as calls. An interleaving is a list of calls. Where a woken task runs
-- later than it was woken, the call that runs it is one of the list. Assertions that fail,
-- std::terminate() and double resumption are recorded in the state (`fault`, `terminated`,
-- `parent_resumed`).
--
-- A run of the executors takes its steps on fuel. What is shown of it holds after any number of
-- steps; that a run ends is not shown, since a callback may submit itself again for ever.
--
-- Bounds: size_t is 64 bits. A queue has fewer than 2^61 cells, so doubling does not wrap; this
-- follows for a history of fewer than 2^60 calls and objects, more than memory can hold. `invoke`
-- and `internalCancel` of a mux call each other; the fuel is the number of awaitables and one more,
-- enough because each nested call leaves one more awaitable ended. Numbers of awaitables are small,
-- so `count_` does not wrap. A reference count does not wrap in fewer
-- than 2^63 operations on pointers.
--
-- Not modelled: memory and object lifetimes, coroutine frames, tracing and introspection; move
-- operations and destructors of the queue and of the linked list; stub promises and the awaiters of
-- tasks; `close` of an UnsafeNursery; the destruction of an executor that runs; proxies over several
-- portals; tagged pointers; the bindings to Qt and asio but for XMODEM; the overloads that build the
-- classes above.
pub mod Prelude
pub mod Queue
pub mod ParkingLot
pub mod Event
pub mod Semaphore
pub mod Channel
pub mod Value
pub mod Awaitable
pub mod Mux
pub mod Sequence
pub mod TryBlock
pub mod Shared
pub mod Promise
pub mod Nursery
pub mod IntrusiveList
pub mod Xmodem
pub mod Checker
pub mod CbPortal
pub mod IntrusivePtr
pub mod Executor
