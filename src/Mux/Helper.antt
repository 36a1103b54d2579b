-- ===== src/Mux/Helper.antt =====
-- MuxHelper (detail/wait.h). Each function takes the index of the helper in its mux, and `notify`
-- stands for `mux()->invoke(ex)`.
use hf_qcorral.Prelude.{ℕ, Bool, true, false, not, Option, none, some, if◌then◌else◌}
use hf_qcorral.Mux.State.{
  Exception, not_started, cancellation_pending, running, cancelling, cancelled, ready, succeeded,
  failed, keeps, resumes, throws, OnCancel, confirms, defers, completes, yields, raises, Helper,
  Mux, status_of, script_of, set_status, unreachable,
}

-- `MuxHelper::ready`; `none` where it is not to be called.
unfoldable pub is_ready : Helper → Option Bool
is_ready h = elim h.status [
  | not_started ↦ some h.script.is_ready
  | running ↦ none
  | cancelling ↦ none
  | cancellation_pending ↦ some false
  | cancelled ↦ some false
  | ready ↦ some true
  | succeeded ↦ some true
  | failed ↦ some true
]

module _ (notify : Option Exception → Mux → Mux) where
  -- `reportResult`.
  unfoldable pub report_result : ℕ → Mux → Mux
  report_result i m = elim (script_of i m).on_resume [
    | yields v ↦ notify none (set_status i succeeded m)
    | raises ex ↦ notify (some ex) (set_status i failed m)
  ]

  -- `MuxHelper::invoke`: the awaitable has resumed its handle.
  unfoldable pub resumed : ℕ → Mux → Mux
  unfolding report_result
  resumed i m = elim (status_of i m) [
    | cancelling ↦
        if not (script_of i m).must_resume
        then notify none (set_status i cancelled m)
        else report_result i m
    | running ↦ report_result i m
    | ready ↦ report_result i m
    | _ ↦ unreachable m
  ]

  -- The answer of `await_cancel` on a running awaitable.
  unfoldable pub cancel_running : OnCancel → ℕ → Mux → Mux × Bool
  unfolding resumed
  cancel_running confirms i m = (notify none (set_status i cancelled m), true)
  cancel_running defers i m = (m, false)
  cancel_running completes i m =
      let m' = resumed i m in (m', elim (status_of i m') [ cancelled ↦ true | _ ↦ false ])

  -- `cancel`: true if the awaitable is now cancelled and will bring no result.
  unfoldable pub cancel : ℕ → Mux → Mux × Bool
  unfolding cancel_running
  cancel i m = elim (status_of i m) [
    | not_started ↦
        if (script_of i m).early_cancel
        then (if m.bound
            then (notify none (set_status i cancelled m), true)
            else (set_status i cancelled m, true))
        else (set_status i cancellation_pending m, false)
    | running ↦ cancel_running (script_of i m).on_cancel i (set_status i cancelling m)
    | cancelled ↦ (m, true)
    | _ ↦ (m, false)
  ]

  -- The second half of `kickOff`.
  unfoldable pub start : ℕ → Mux → Mux
  unfolding resumed
  start i m = if (script_of i m).is_ready then resumed i m else (elim (script_of i m).on_suspend [
    | keeps ↦ m
    | resumes ↦ resumed i m
    | throws ex ↦ notify (some ex) (set_status i failed m)
  ])

  -- `suspend`, with `kickOff`.
  unfoldable pub suspend : ℕ → Mux → Mux
  unfolding start
  suspend i m = elim (status_of i m) [
    | not_started ↦ start i (set_status i running m)
    | cancellation_pending ↦ start i (set_status i cancelling m)
    | cancelled ↦ notify none m
    | _ ↦ unreachable m
  ]

  -- The settling of a failed early cancellation in `mustResume` and `reportImmediateResult`.
  unfoldable pub settle : ℕ → Mux → Mux
  settle i m = elim (status_of i m) [
    | cancellation_pending ↦
        set_status i (if (script_of i m).must_resume then ready else cancelled) m
    | _ ↦ m
  ]

  unfoldable pub report_settled : ℕ → Mux → Mux
  unfolding report_result cancel
  report_settled i m = elim (status_of i m) [
    | cancelled ↦ notify none m
    | not_started ↦
        if not (script_of i m).is_ready
        then (let (m', done) = cancel i m in if done then m' else unreachable m')
        else report_result i m
    | ready ↦ report_result i m
    | _ ↦ unreachable m
  ]

  -- `reportImmediateResult`.
  unfoldable pub report_immediate_result : ℕ → Mux → Mux
  unfolding settle report_settled
  report_immediate_result i m = report_settled i (settle i m)

-- `mustResume`, with the state that it leaves behind; `none` where it is not to be called.
unfoldable pub must_resume : Helper → Helper × Option Bool
must_resume h = elim h.status [
  | not_started ↦ (h, some true)
  | cancellation_pending ↦ (
    record h { status = if h.script.must_resume then ready else cancelled },
    some h.script.must_resume,
  )
  | cancelled ↦ (h, some false)
  | ready ↦ (h, some true)
  | succeeded ↦ (h, some true)
  | failed ↦ (h, some true)
  | running ↦ (h, none)
  | cancelling ↦ (h, none)
]

-- `asOptional`: the value, `nullopt`, or (`none`) a failed assertion.
unfoldable pub as_optional : Helper → Option (Option ℕ)
as_optional h = elim h.status [
  | succeeded ↦ (elim h.script.on_resume [ yields v ↦ some (some v) | raises ex ↦ none ])
  | cancelled ↦ some none
  | _ ↦ none
]
