-- ===== src/Nursery/Tests.antt =====
-- A nursery with a body that starts two tasks, one of which fails.
use hf_qcorral.Prelude.{◌≡◌, refl, ◌⊎◌, inl, true, not, ◌||◌, List, [], ◌∷◌, arith}
use hf_qcorral.Nursery.{
  open_scope, cancel, run_captured, store_exception, continuation, make, is_set, await_resume,
  await_must_resume,
}
use hf_qcorral.Nursery.History.{
  NurseryEvent, opens, adds, ends, fails, cancels, sends, runs, begin, run,
}
use hf_qcorral.Nursery.Fate.{IsReached}
use hf_qcorral.Nursery.Reach.{run-IsReached}
use hf_qcorral.Nursery.Failure.{first, run-failure}

-- The body is task 1; task 3 fails with exception 7 while the nursery is being cancelled, so the
-- parent gets that exception; all tasks end, and the executor runs what it was given.
abbrev story : List NurseryEvent
story =
    opens 50 1
    ∷ adds 2
    ∷ adds 3
    ∷ cancels
    ∷ sends
    ∷ fails 3 7
    ∷ ends 3
    ∷ sends
    ∷ sends
    ∷ ends 1
    ∷ ends 2
    ∷ runs
    ∷ runs
    ∷ runs
    ∷ runs
    ∷ []

begin-IsReached : IsReached 3 begin
unfolding begin make
begin-IsReached = record {
  fresh = omega arith;
  kept_once = omega arith;
  sent_once = omega arith;
  covered = inl (refl, refl);
  alive = inl refl;
  closed = inl refl;
}

run-IsReached_example : IsReached 3 (run begin story)
run-IsReached_example = run-IsReached 3 begin story begin-IsReached

run-failure_example :
    let l = run begin story in
    (l.nursery.terminated ≡ true)
    ⊎ ((await_resume l.nursery ≡ first l.failures)
        × (await_must_resume l.nursery ≡ is_set (first l.failures) || not l.asked))
run-failure_example = run-failure story

story_ends : ((run begin story).resumed ≡ 1) × ((run begin story).sent ≡ 1 ∷ 2 ∷ 3 ∷ [])
unfolding begin run make open_scope cancel run_captured store_exception continuation
story_ends = (refl, refl)
