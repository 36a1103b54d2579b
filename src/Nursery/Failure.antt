-- ===== src/Nursery/Failure.antt =====
-- Which exception leaves a nursery (Nursery.h).
use hf_qcorral.Prelude.{
  ℕ, ◌≡◌, refl, ap, ◌∙◌, ◌⊎◌, inl, inr, Bool, true, false, not, ◌&&◌, ◌||◌, if_cases, Option, none,
  some, List, [], ◌∷◌, ◌++◌, arith, if◌then◌else◌,
}
use hf_qcorral.Awaitable.{Exception}
use hf_qcorral.Nursery.{
  Cause, cancellation_request, raised, Parent, awaiting, closing, Action, destroy, resume, Nursery,
  make, is_set, is_none, add_task, do_cancel, send_next, run_captured, cancel, store_exception,
  close_if_done, continuation, open_scope, join_suspend, async_close, call_closing, resume_parent,
  kept, await_must_resume, await_resume,
}
use hf_qcorral.Nursery.History.{
  NurseryEvent, opens, joins, closes, adds, ends, fails, cancels, sends, runs, Log, begin,
  is_possible, take_turn, apply, step, run,
}

-- The first of the exceptions, or else the request, if there was one.
abbrev pub expected : List Exception → Bool → Option Cause
expected [] asked = if asked then some cancellation_request else none
expected (ex ∷ exs) asked = some (raised ex)

abbrev pub first : List Exception → Option Exception
first [] = none
first (ex ∷ exs) = some ex

-- What `exception_` holds, unless the program was terminated.
abbrev pub IsKept : Nursery → List Exception → Bool → Type 0
IsKept n exs asked = (n.terminated ≡ true) ⊎ (n.exception ≡ expected exs asked)

kept-expected :
    (exs : List Exception) (asked : Bool) (ex : Exception)
    → kept (expected exs asked) ex ≡ expected (exs ++ ex ∷ []) asked
unfolding kept
kept-expected [] true ex = refl
kept-expected [] false ex = refl
kept-expected (e ∷ exs) asked ex = refl

do_cancel-exception :
    (n : Nursery)
    → ((do_cancel n).exception ≡ n.exception) × ((do_cancel n).terminated ≡ n.terminated)
unfolding do_cancel
do_cancel-exception n = ground arith

cancel-expected :
    (exs : List Exception) (asked : Bool) (n : Nursery)
    → n.exception ≡ expected exs asked
    → (cancel n).exception ≡ expected exs true
unfolding cancel
cancel-expected exs asked n h =
    if_cases (λ (m : Nursery). m.exception ≡ expected exs true) (is_set n.exception) _ _
      (λ v. h ∙ set_by exs asked (rw h at v))
      (λ v.
        (do_cancel-exception (record n { exception = some cancellation_request })).0
        ∙ unset_by exs asked (rw h at v))
  where
    set_by :
        (exs : List Exception) (asked : Bool)
        → is_set (expected exs asked) ≡ true
        → expected exs asked ≡ expected exs true
    set_by [] true v = refl
    set_by [] false v = cc
    set_by (ex ∷ exs) asked v = refl

    unset_by :
        (exs : List Exception) (asked : Bool)
        → is_set (expected exs asked) ≡ false
        → some cancellation_request ≡ expected exs true
    unset_by [] asked v = refl
    unset_by (ex ∷ exs) asked v = cc

store_exception-IsKept :
    (ex : Exception) (exs : List Exception) (asked : Bool) (n : Nursery)
    → n.exception ≡ expected exs asked
    → IsKept (store_exception ex n) (exs ++ ex ∷ []) asked
unfolding store_exception
store_exception-IsKept ex exs asked n h =
    let now : kept n.exception ex ≡ expected (exs ++ ex ∷ []) asked =
      ap (λ o. kept o ex) h ∙ kept-expected exs asked ex in
    if_cases (λ (m : Nursery). IsKept m (exs ++ ex ∷ []) asked) (not (is_set n.parent)) _ _
      (λ _. inl refl)
      (λ _. inr (
        if_cases (λ (m : Nursery). m.exception ≡ expected (exs ++ ex ∷ []) asked)
          (not (is_set n.exception)) _ _
          (λ _. (do_cancel-exception (record n { exception = kept n.exception ex })).0 ∙ now)
          (λ _. now)))

close_if_done-exception :
    (p : Option Parent) (t : ℕ) (n : Nursery) → (close_if_done p t n).exception ≡ n.exception
unfolding close_if_done
close_if_done-exception none t n = refl
close_if_done-exception (some p) t n = ground arith

send_next-exception : (ts : List ℕ) (n : Nursery) → (send_next ts n).0.exception ≡ n.exception
unfolding send_next
send_next-exception [] n = refl
send_next-exception (t ∷ ts) n = refl

call_closing-exception :
    (o : Option Cause) (n : Nursery) → (call_closing o n).exception ≡ n.exception
unfolding call_closing
call_closing-exception none n = refl
call_closing-exception (some cancellation_request) n = refl
call_closing-exception (some (raised ex)) n = refl

take_turn-IsKept :
    (xs : List Action) (l : Log)
    → l.nursery.exception ≡ expected l.failures l.asked
    → let l' = take_turn xs l in l'.nursery.exception ≡ expected l'.failures l'.asked
unfolding take_turn resume_parent
take_turn-IsKept [] l h = h
take_turn-IsKept (destroy t ∷ xs) l h = h
take_turn-IsKept (resume (awaiting p) ∷ xs) l h = h
take_turn-IsKept (resume (closing c) ∷ xs) l h =
    call_closing-exception l.nursery.exception (record l.nursery { scheduled = xs }) ∙ h

join_suspend-exception : (h : ℕ) (n : Nursery) → (join_suspend h n).0.exception ≡ n.exception
unfolding join_suspend
join_suspend-exception h n = ground arith

async_close-expected :
    (c : ℕ) (exs : List Exception) (asked : Bool) (n : Nursery)
    → n.exception ≡ expected exs asked
    → let (n', called) = async_close c n in n'.exception ≡ expected exs (asked || not called)
unfolding async_close
async_close-expected c exs asked n h =
    let n' = record n { fault = n.fault || is_set n.parent } in
    if_cases (λ (r : Nursery × Bool). r.0.exception ≡ expected exs (asked || not r.1))
      (is_none n.tasks) (record n' { executor = false }, true)
      (cancel (record n' { parent = some (closing c) }), false)
      (λ _. h ∙ ap (expected exs) (ground arith))
      (λ _.
        cancel-expected exs asked (record n' { parent = some (closing c) }) h
        ∙ ap (expected exs) (ground arith))

abbrev IsTold : Log → Type 0
IsTold l = IsKept l.nursery l.failures l.asked

apply-IsTold :
    (e : NurseryEvent) (l : Log)
    → l.nursery.exception ≡ expected l.failures l.asked
    → IsTold (apply e l)
unfolding apply open_scope add_task continuation run_captured
apply-IsTold (opens h t) l v = inr v
apply-IsTold (joins h) l v = inr (join_suspend-exception h l.nursery ∙ v)
apply-IsTold (closes c) l v = inr (async_close-expected c l.failures l.asked l.nursery v)
apply-IsTold (adds t) l v = inr v
apply-IsTold (ends t) l v = inr (close_if_done-exception l.nursery.parent t _ ∙ v)
apply-IsTold (fails t ex) l v = store_exception-IsKept ex l.failures l.asked l.nursery v
apply-IsTold cancels l v = inr (cancel-expected l.failures l.asked l.nursery v)
apply-IsTold sends l v = inr (send_next-exception l.nursery.captured l.nursery ∙ v)
apply-IsTold runs l v = inr (take_turn-IsKept l.nursery.scheduled l v)

step-IsTold : (l : Log) (e : NurseryEvent) → IsTold l → IsTold (step l e)
unfolding step
step-IsTold l e (inl v) =
    if_cases IsTold (not l.nursery.terminated && is_possible e l) _ _
      (λ w. absurd (ground (arith, v, w))) (λ _. inl v)
step-IsTold l e (inr v) =
    if_cases IsTold (not l.nursery.terminated && is_possible e l) _ _ (λ _. apply-IsTold e l v)
      (λ _. inr v)

run-IsTold : (l : Log) (es : List NurseryEvent) → IsTold l → IsTold (run l es)
unfolding run
run-IsTold l [] v = v
run-IsTold l (e ∷ es) v = run-IsTold (step l e) es (step-IsTold l e v)

await_resume-expected :
    (exs : List Exception) (asked : Bool) (n : Nursery)
    → n.exception ≡ expected exs asked
    → (await_resume n ≡ first exs) × (await_must_resume n ≡ is_set (first exs) || not asked)
unfolding await_resume await_must_resume
await_resume-expected [] true n h = (rw h refl, rw h refl)
await_resume-expected [] false n h = (rw h refl, rw h refl)
await_resume-expected (ex ∷ exs) asked n h = (rw h refl, rw h refl)

-- After any history of a new nursery, unless the program was terminated: what its parent gets is
-- the first exception of its tasks, even if the nursery had been asked to cancel before, and no
-- exception if none has failed; and a parent that was cancelled goes on exactly if a task has
-- failed or nobody had asked the nursery to cancel.
pub run-failure :
    (es : List NurseryEvent)
    → let l = run begin es in
      (l.nursery.terminated ≡ true)
      ⊎ ((await_resume l.nursery ≡ first l.failures)
          × (await_must_resume l.nursery ≡ is_set (first l.failures) || not l.asked))
unfolding begin make
run-failure es =
    let l = run begin es in
    elim (run-IsTold begin es (inr refl)) [
      | inl v ↦ inl v
      | inr v ↦ inr (await_resume-expected l.failures l.asked l.nursery v)
    ]
