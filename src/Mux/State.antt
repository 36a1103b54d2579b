-- ===== src/Mux/State.antt =====
-- The data of MuxHelper and MuxBase (detail/wait.h).
pub use hf_qcorral.Awaitable.{
  Exception, OnSuspend, keeps, resumes, throws, OnCancel, confirms, defers, completes, OnResume,
  yields, raises, Script,
}
use hf_qcorral.Prelude.{ℕ, zero, suc, Bool, true, false, Option, List, [], ◌∷◌, length}

pub data Status : Type 0 where
  not_started cancellation_pending running cancelling cancelled ready succeeded failed : Status

-- A MuxHelper: the state in the low bits of `mux_`, and the awaitable.
pub record Helper : Type 0 where
  pub status : Status
  pub script : Script

-- A mux. `parent_resumed` counts the calls of `parent_.resume()` on the real handle; `parent_live`
-- says whether `parent_` is that handle or a no-op. `bound` is `isBound()` of the helpers, which
-- are all bound at once. `fault` records an assertion that failed.
pub record Mux : Type 0 where
  pub helpers : List Helper
  pub min_ready : ℕ
  pub bound : Bool
  pub count : ℕ
  pub exception : Option Exception
  pub parent_live : Bool
  pub parent_resumed : ℕ
  pub fault : Bool

abbrev pub size : Mux → ℕ
size m = length m.helpers

-- An awaitable beyond the last is one that has failed; the loops below never reach it.
abbrev pub beyond : Helper
beyond = record {
  status = failed;
  script = record {
    is_ready = true;
    skippable = true;
    abortable = false;
    early_cancel = true;
    on_suspend = keeps;
    on_cancel = confirms;
    must_resume = false;
    on_resume = raises 0;
  };
}

unfoldable pub helper_at : List Helper → ℕ → Helper
helper_at [] i = beyond
helper_at (h ∷ hs) zero = h
helper_at (h ∷ hs) (suc i) = helper_at hs i

unfoldable pub with_status : List Helper → ℕ → Status → List Helper
with_status [] i st = []
with_status (h ∷ hs) zero st = record h { status = st } ∷ hs
with_status (h ∷ hs) (suc i) st = h ∷ with_status hs i st

abbrev pub status_of : ℕ → Mux → Status
status_of i m = (helper_at m.helpers i).status

abbrev pub script_of : ℕ → Mux → Script
script_of i m = (helper_at m.helpers i).script

unfoldable pub set_status : ℕ → Status → Mux → Mux
set_status i st m = record m { helpers = with_status m.helpers i st }

-- A call of CORRAL_ASSERT_UNREACHABLE.
unfoldable pub unreachable : Mux → Mux
unreachable m = record m { fault = true }
