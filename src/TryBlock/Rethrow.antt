-- ===== src/TryBlock/Rethrow.antt =====
-- RethrowCurrentException (corral/corral/detail/exception.h), which a handler awaits to throw on
-- the exception that it handles.
use hf_qcorral.Prelude.{
  ◌≡◌, refl, Bool, true, false, Option, none, some, List, [], ◌∷◌, ◌++◌, arith,
}
use hf_qcorral.Awaitable.{Exception}
use hf_qcorral.TryBlock.{TryBlock}

-- A frame of the chain of links: a task with its parent, if that is a try-block; another proxy; or
-- a coroutine that is neither.
pub data Frame : Type 0 where
  task : Option TryBlock → Frame
  proxy plain : Frame

-- `exception_` is set; it is still null at the end of the chain; or std::terminate() is called.
pub data Search : Type 0 where
  found : Exception → Search
  unset terminates : Search

-- `parent && parent->exception_`.
unfoldable pub parent_exception : Option TryBlock → Option Exception
parent_exception none = none
parent_exception (some b) = b.exception

-- The loop of `await_suspend` over the frames from the awaiting one outwards.
unfoldable pub find_exception : List Frame → Search
unfolding parent_exception
find_exception [] = unset
find_exception (task parent ∷ fs) = elim (parent_exception parent) [
  | some ex ↦ found ex
  | none ↦ find_exception fs
]
find_exception (proxy ∷ fs) = find_exception fs
find_exception (plain ∷ fs) = terminates

-- Links on, and carries no exception.
abbrev pub passes : Frame → Bool
passes (task parent) = elim (parent_exception parent) [ some ex ↦ false | none ↦ true ]
passes proxy = true
passes plain = false

abbrev pub AllPass : List Frame → Type 0
AllPass [] = Unit {0}
AllPass (f ∷ fs) = (passes f ≡ true) × AllPass fs

-- What is rethrown is the exception of the innermost try-block around the awaiting task that has
-- one, however many proxies, other tasks and try-blocks without an exception lie in between, and
-- whatever lies further out.
pub find_exception-append :
    (inner outer : List Frame) (b : TryBlock) (ex : Exception)
    → AllPass inner
    → b.exception ≡ some ex
    → find_exception (inner ++ task (some b) ∷ outer) ≡ found ex
unfolding find_exception parent_exception
find_exception-append [] outer b ex a e = rw e refl
find_exception-append (task none ∷ fs) outer b ex a e = find_exception-append fs outer b ex a.1 e
find_exception-append (task (some c) ∷ fs) outer b ex a e =
    ground (arith, find_exception-append fs outer b ex a.1 e, a.0)
find_exception-append (proxy ∷ fs) outer b ex a e = find_exception-append fs outer b ex a.1 e
find_exception-append (plain ∷ fs) outer b ex a e = cc
