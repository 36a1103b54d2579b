-- ===== src/Mux/Combiner.antt =====
-- MuxBase, MuxTuple and MuxRange (detail/wait.h).
use hf_qcorral.Prelude.{
  ℕ, zero, suc, ◌+◌, ◌-◌, Bool, true, false, not, ◌&&◌, ◌||◌, Option, none, some, List, [], ◌∷◌,
  map, length, leb, ◌==◌, if◌then◌else◌, min,
}
use hf_qcorral.Mux.State.{Exception, not_started, Script, Helper, Mux, size, unreachable}
use hf_qcorral.Mux.Helper

-- `parent_.resume()`.
unfoldable pub resume_parent : Mux → Mux
resume_parent m = if m.parent_live then record m { parent_resumed = m.parent_resumed + 1 } else m

-- `internalCancel`: the helpers from `i` on, `left` of them, are cancelled one after another.
unfoldable pub cancel_from : (Option Exception → Mux → Mux) → ℕ → ℕ → Mux → Mux × Bool
cancel_from notify zero i m = (m, true)
cancel_from notify (suc left) i m =
    let (m', now) = Helper.cancel notify i m in
    let (m'', rest) = cancel_from notify left (i + 1) m' in (m'', now && rest)

-- The start of `invoke`: the count goes up, and the first failure is kept.
abbrev pub keep_first : Option Exception → Option Exception → Option Exception
keep_first none ex = ex
keep_first (some first) ex = some first

unfoldable pub note : Option Exception → Mux → Mux
note ex m = record m { count = m.count + 1; exception = keep_first m.exception ex }

unfoldable pub first_fail : Option Exception → Mux → Bool
first_fail none m = false
first_fail (some ex) m = elim m.exception [ none ↦ true | some _ ↦ false ]

-- The end of the branch that cancels: `if (++count_ == size) parent_.resume()`.
unfoldable pub recount : Mux → Mux
unfolding resume_parent
recount m =
    let m' = record m { count = m.count + 1 } in
    if m'.count == size m' then resume_parent m' else m'

-- `MuxBase::invoke`. A helper that is cancelled meanwhile calls it again, so `fuel` bounds the
-- depth of these calls.
unfoldable pub invoke : ℕ → Option Exception → Mux → Mux
unfolding note first_fail recount resume_parent cancel_from
invoke zero ex m = unreachable m
invoke (suc fuel) ex m =
    let m' = note ex m in
    let cancelling =
      recount (cancel_from (invoke fuel) (size m') 0 (record m' { count = m'.count - 1 })).0 in
    if m'.count == size m'
    then resume_parent m'
    else if first_fail ex m || m'.count == m'.min_ready
    then cancelling
    else m'

abbrev pub depth : Mux → ℕ
depth m = size m + 1

-- `internalCancel`.
unfoldable pub internal_cancel : Mux → Mux × Bool
unfolding cancel_from invoke
internal_cancel m = cancel_from (invoke (depth m)) (size m) 0 m

-- `await_ready`: enough awaitables are ready, and the others need no start.
unfoldable pub count_ready : List Helper → ℕ
count_ready [] = 0
count_ready (h ∷ hs) = (elim (Helper.is_ready h) [
  | some true ↦ count_ready hs + 1
  | _ ↦ count_ready hs
])

unfoldable pub can_skip_kickoff : List Helper → Bool
can_skip_kickoff [] = true
can_skip_kickoff (h ∷ hs) = (elim (Helper.is_ready h) [
  | some true ↦ can_skip_kickoff hs
  | _ ↦ h.script.skippable && can_skip_kickoff hs
])

unfoldable pub await_ready : Mux → Bool
unfolding count_ready can_skip_kickoff
await_ready m =
    (size m == 0) || (leb m.min_ready (count_ready m.helpers) && can_skip_kickoff m.helpers)

-- The loop of `await_suspend` that starts the helpers from `i` on, `left` of them.
unfoldable pub suspend_from : ℕ → ℕ → ℕ → Mux → Mux
unfolding invoke
suspend_from fuel zero i m = m
suspend_from fuel (suc left) i m = suspend_from fuel left (i + 1) (Helper.suspend (invoke fuel) i m)

-- `await_suspend`: bind all, then start all; false if there is nothing to wait for.
unfoldable pub await_suspend : Mux → Mux × Bool
unfolding suspend_from
await_suspend m =
    if size m == 0
    then (m, false)
    else (suspend_from (depth m) (size m) 0 (record m { bound = true; parent_live = true }), true)

-- `muxIsAbortable` of a tuple, and `muxIsSkippable`. (A range is abortable only if it is an anyOf; this
-- differs for a mostOf of one over a range, which does not assert.)
unfoldable pub all_abortable : List Helper → Bool
all_abortable [] = true
all_abortable (h ∷ hs) = h.script.abortable && all_abortable hs

unfoldable pub all_skippable : List Helper → Bool
all_skippable [] = true
all_skippable (h ∷ hs) = h.script.skippable && all_skippable hs

abbrev pub mux_is_abortable : Mux → Bool
mux_is_abortable m = (m.min_ready == 1) && all_abortable m.helpers

-- `CORRAL_ASSERT(allNowCancelled)`, and what is returned then.
abbrev pub asserted : Bool → Mux → Mux × Bool
asserted all m = (record m { fault = m.fault || not all }, true)

-- `await_early_cancel`.
unfoldable pub await_early_cancel : Mux → Mux × Bool
unfolding internal_cancel all_skippable
await_early_cancel m =
    let (m', all) = internal_cancel m in
    if all_skippable m.helpers then asserted all m' else (m', all)

-- `await_cancel`: the parent is not resumed while the awaitables are cancelled.
unfoldable pub await_cancel : Mux → Mux × Bool
unfolding internal_cancel all_abortable
await_cancel m =
    let (m', all) = internal_cancel (record m { parent_live = false }) in
    let m'' = record m' { parent_live = m.parent_live } in
    if mux_is_abortable m
    then asserted all m''
    else (if all
        then (m'', true)
        else (if m''.count == size m''
            then (record m'' { parent_resumed = m''.parent_resumed + 1 }, false)
            else (m'', false)))

unfoldable pub must_resume_any : List Helper → List Helper × Bool
must_resume_any [] = ([], false)
must_resume_any (h ∷ hs) =
    let (h', one) = Helper.must_resume h in
    let (hs', any) = must_resume_any hs in
    (h' ∷ hs', (elim one [ some b ↦ b | none ↦ false ]) || any)

unfoldable pub must_resume_all : List Helper → List Helper × Bool
must_resume_all [] = ([], true)
must_resume_all (h ∷ hs) =
    let (h', one) = Helper.must_resume h in
    let (hs', all) = must_resume_all hs in
    (h' ∷ hs', (elim one [ some b ↦ b | none ↦ false ]) && all)

-- `await_must_resume` of AnyOf and MostOf, and of AllOf.
unfoldable pub await_must_resume : Mux → Mux × Bool
unfolding must_resume_any
await_must_resume m = let (hs, any) = must_resume_any m.helpers in (record m { helpers = hs }, any)

unfoldable pub await_must_resume_all : Mux → Mux × Bool
unfolding must_resume_all
await_must_resume_all m =
    let (hs, all) = must_resume_all m.helpers in
    (
      record m { helpers = hs },
      (elim m.exception [ some ex ↦ true | none ↦ not (size m == 0) && all ]),
    )

-- The loop of `handleResumeWithoutSuspend`.
unfoldable pub report_from : ℕ → ℕ → ℕ → Mux → Mux
unfolding invoke
report_from fuel zero i m = m
report_from fuel (suc left) i m =
    report_from fuel left (i + 1) (Helper.report_immediate_result (invoke fuel) i m)

unfoldable pub resume_without_suspend : Mux → Mux
unfolding report_from
resume_without_suspend m =
    if m.bound
    then m
    else report_from (depth m) (size m) 0 (record m { bound = true; parent_live = false })

-- `await_resume` of AnyOf and MostOf: the first exception, or one optional result for each.
unfoldable pub await_resume : Mux → Option Exception × List (Option (Option ℕ))
unfolding resume_without_suspend
await_resume m =
    let m' = resume_without_suspend m in
    (elim m'.exception [
      | some ex ↦ (some ex, [])
      | none ↦ (none, map Helper.as_optional m'.helpers)
    ])

module _ (scripts : List Script) where
  -- A combiner that was not awaited yet.
  unfoldable pub make : ℕ → Mux
  make min_ready = record {
    helpers = map (λ s. record { status = not_started; script = s }) scripts;
    min_ready = min_ready;
    bound = false;
    count = 0;
    exception = none;
    parent_live = false;
    parent_resumed = 0;
    fault = false;
  }

  unfoldable pub any_of : Mux
  unfolding make
  any_of = make 1

  unfoldable pub any_of_range : Mux
  unfolding make
  any_of_range = make (min 1 (length scripts))

  unfoldable pub most_of : Mux
  unfolding make
  most_of = make (length scripts)
