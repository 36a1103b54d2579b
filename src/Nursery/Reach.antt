-- ===== src/Nursery/Reach.antt =====
-- Which tasks a nursery cancels and destroys (Nursery.h).
use hf_qcorral.Prelude.{
  ℕ, ◌+◌, ◌≡◌, refl, ◌⊎◌, inl, inr, Bool, true, false, not, ◌&&◌, ◌||◌, if_cases, Option, none,
  some, append-nil, dec_size, List, [], ◌∷◌, ◌++◌, arith, ◌==◌, if◌then◌else◌, occurrences,
  occurrences-append,
}
use hf_qcorral.Nursery.{
  Cause, cancellation_request, raised, Parent, awaiting, closing, Action, destroy, resume, Nursery,
  is_set, is_none, send_next, run_captured, cancel, erase, close_if_done, continuation, open_scope,
  join_suspend, async_close, call_closing, resume_parent,
}
use hf_qcorral.Nursery.Joined.{none-nil}
use hf_qcorral.Nursery.History.{
  NurseryEvent, opens, joins, closes, adds, ends, fails, cancels, sends, runs, Log, is_possible,
  take_turn, apply, step, run, destructions, destructions-append,
}
use hf_qcorral.Nursery.Fate.{
  occurrences-erase, Fate-end, Fate-send, Fate-destroy, occurrences-one, Fate, IsReached,
}
use hf_qcorral.Nursery.Requests.{add-IsReached, nobody, cancel-IsReached, store_exception-IsReached}

destructions-one : (t u : ℕ) → destructions t (destroy u ∷ []) ≡ (if u == t then 1 else 0)
destructions-one t u = ground arith

destructions-two :
    (t u : ℕ) (p : Parent) → destructions t (destroy u ∷ resume p ∷ []) ≡ (if u == t then 1 else 0)
destructions-two t u p = ground arith

none_of : (t : ℕ) (ts : List ℕ) → is_none ts ≡ true → occurrences t ts ≡ 0
none_of t [] v = refl
none_of t (u ∷ us) v = cc

still_closed : {e : Bool} {k : ℕ} (a : ℕ) → (e ≡ true) ⊎ (k + a ≡ 0) → (e ≡ true) ⊎ (k ≡ 0)
still_closed a (inl v) = inl v
still_closed a (inr v) = inr (omega (arith, v))

destroy-IsReached :
    (t u : ℕ) (l : Log)
    → Fate l.nursery.executor
        (is_set l.nursery.exception)
        (occurrences t l.started)
        (occurrences t l.nursery.tasks + (if u == t then 1 else 0))
        (occurrences t l.nursery.captured)
        (occurrences t l.sent)
        (destructions t l.nursery.scheduled)
        (occurrences t l.destroyed)
    → IsReached t (record l {
      nursery = record l.nursery { scheduled = l.nursery.scheduled ++ destroy u ∷ [] };
    })
destroy-IsReached t u l f =
    let n = l.nursery in
    rw (destructions-append t n.scheduled (destroy u ∷ []), destructions-one t u)
      (Fate-end n.executor n.executor (is_set n.exception) (occurrences t l.started)
        (occurrences t n.tasks) (occurrences t n.captured) (occurrences t l.sent)
        (destructions t n.scheduled) (occurrences t l.destroyed) (if u == t then 1 else 0)
        (still_closed (if u == t then 1 else 0) f.closed) f)

close_if_done-IsReached :
    (p : Option Parent) (t u : ℕ) (l : Log)
    → Fate l.nursery.executor
        (is_set l.nursery.exception)
        (occurrences t l.started)
        (occurrences t l.nursery.tasks + (if u == t then 1 else 0))
        (occurrences t l.nursery.captured)
        (occurrences t l.sent)
        (destructions t l.nursery.scheduled)
        (occurrences t l.destroyed)
    → IsReached t (record l { nursery = close_if_done p u l.nursery })
unfolding close_if_done
close_if_done-IsReached none t u l f = destroy-IsReached t u l f
close_if_done-IsReached (some p) t u l f =
    let n = l.nursery in
    if_cases (λ (m : Nursery). IsReached t (record l { nursery = m })) (is_none n.tasks) _ _
      (λ v.
        rw (destructions-append t n.scheduled (destroy u ∷ resume p ∷ []), destructions-two t u p)
          (Fate-end n.executor false (is_set n.exception) (occurrences t l.started)
            (occurrences t n.tasks) (occurrences t n.captured) (occurrences t l.sent)
            (destructions t n.scheduled) (occurrences t l.destroyed) (if u == t then 1 else 0)
            (inr (none_of t n.tasks v)) f))
      (λ _. destroy-IsReached t u l f)

ends-IsReached :
    (t u : ℕ) (l : Log)
    → is_possible (ends u) l ≡ true
    → IsReached t l
    → IsReached t (apply (ends u) l)
unfolding apply continuation
ends-IsReached t u l h f =
    let n = l.nursery in
    close_if_done-IsReached n.parent t u
      (record l {
        nursery = record n {
          tasks = erase u n.tasks;
          task_count = dec_size n.task_count;
          fault = n.fault || not n.executor;
        };
      })
      (rw (occurrences-erase t u n.tasks h) at f)

call_closing-IsReached :
    (o : Option Cause) (t : ℕ) (l : Log)
    → IsReached t l
    → IsReached t (record l { nursery = call_closing o l.nursery })
unfolding call_closing
call_closing-IsReached none t l f = f
call_closing-IsReached (some cancellation_request) t l f = f
call_closing-IsReached (some (raised ex)) t l f = f

resume_parent-IsReached :
    (p : Parent) (t : ℕ) (l : Log)
    → IsReached t l
    → IsReached t (record l { nursery = resume_parent p l.nursery })
unfolding resume_parent
resume_parent-IsReached (awaiting h) t l f = f
resume_parent-IsReached (closing c) t l f = call_closing-IsReached l.nursery.exception t l f

take_turn-IsReached :
    (t : ℕ) (xs : List Action) (l : Log)
    → l.nursery.scheduled ≡ xs
    → l.nursery.captured ≡ []
    → IsReached t l
    → IsReached t (take_turn xs l)
unfolding take_turn
take_turn-IsReached t [] l e c f = f
take_turn-IsReached t (destroy u ∷ xs) l e c f =
    rw (c, occurrences-append t (u ∷ []) l.destroyed, occurrences-one t u)
      (Fate-destroy l.nursery.executor (is_set l.nursery.exception) (occurrences t l.started)
        (occurrences t l.nursery.tasks) (occurrences t l.sent) (destructions t xs)
        (occurrences t l.destroyed) (if u == t then 1 else 0) (rw (e, c) at f))
take_turn-IsReached t (resume p ∷ xs) l e c f =
    resume_parent-IsReached p t
      (record l { nursery = record l.nursery { scheduled = xs }; resumed = l.resumed + 1 })
      (rw e at f)

send_next-IsReached :
    (t : ℕ) (ts : List ℕ) (l : Log)
    → l.nursery.captured ≡ ts
    → IsReached t l
    → let (n, us) = send_next ts l.nursery in
      IsReached t (record l { nursery = n; sent = l.sent ++ us })
unfolding send_next
send_next-IsReached t [] l e f = simp append-nil f
send_next-IsReached t (u ∷ ts) l e f =
    rw (occurrences-append t (u ∷ []) l.sent, occurrences-one t u)
      (Fate-send l.nursery.executor (is_set l.nursery.exception) (occurrences t l.started)
        (occurrences t l.nursery.tasks) (occurrences t ts) (occurrences t l.sent)
        (destructions t l.nursery.scheduled) (occurrences t l.destroyed) (if u == t then 1 else 0)
        (rw e at f))

shut-IsReached :
    (t : ℕ) (l : Log)
    → is_none l.nursery.tasks ≡ true
    → IsReached t l
    → IsReached t (record l { nursery = record l.nursery { executor = false } })
shut-IsReached t l v f = record {
  fresh = f.fresh;
  kept_once = f.kept_once;
  sent_once = f.sent_once;
  covered = f.covered;
  alive = f.alive;
  closed = inr (nobody t l.nursery.executor l.nursery.tasks (ground (arith, v)) f.closed);
}

joins-IsReached : (t h : ℕ) (l : Log) → IsReached t l → IsReached t (apply (joins h) l)
unfolding apply join_suspend
joins-IsReached t h l f =
    if_cases (λ (r : Nursery × Bool). IsReached t (record l { nursery = r.0 }))
      (is_none l.nursery.tasks) _ _ (λ v. shut-IsReached t l v f) (λ v. f)

closes-IsReached : (t c : ℕ) (l : Log) → IsReached t l → IsReached t (apply (closes c) l)
unfolding apply async_close
closes-IsReached t c l f =
    let n = record l.nursery { fault = l.nursery.fault || is_set l.nursery.parent } in
    if_cases (λ (r : Nursery × Bool). IsReached t (record l { nursery = r.0 }))
      (is_none l.nursery.tasks) (record n { executor = false }, true)
      (cancel (record n { parent = some (closing c) }), false) (λ v. shut-IsReached t l v f)
      (λ v. cancel-IsReached t (record l { nursery = n }) (some (closing c)) f)

apply-IsReached :
    (t : ℕ) (e : NurseryEvent) (l : Log)
    → is_possible e l ≡ true
    → IsReached t l
    → IsReached t (apply e l)
unfolding apply open_scope run_captured
apply-IsReached t (opens h u) l v f =
    add-IsReached t u l (some (awaiting h)) (ground (arith, v)) (ground (arith, v)) f
apply-IsReached t (joins h) l v f = joins-IsReached t h l f
apply-IsReached t (closes c) l v f = closes-IsReached t c l f
apply-IsReached t (adds u) l v f =
    add-IsReached t u l l.nursery.parent (ground (arith, v)) (ground (arith, v)) f
apply-IsReached t (ends u) l v f = ends-IsReached t u l v f
apply-IsReached t (fails u ex) l v f = store_exception-IsReached t ex l f
apply-IsReached t cancels l v f = cancel-IsReached t l l.nursery.parent f
apply-IsReached t sends l v f = send_next-IsReached t l.nursery.captured l refl f
apply-IsReached t runs l v f =
    take_turn-IsReached t l.nursery.scheduled l refl (none-nil l.nursery.captured v) f

step-IsReached : (t : ℕ) (l : Log) (e : NurseryEvent) → IsReached t l → IsReached t (step l e)
unfolding step
step-IsReached t l e f =
    if_cases (IsReached t) (not l.nursery.terminated && is_possible e l) _ _
      (λ v. apply-IsReached t e l (ground (arith, v)) f) (λ _. f)

-- In any history of a nursery, and for any task: it is cancelled by the nursery at most once, and
-- destroyed at most once, after it has ended; no cancellation is still to be sent to a task that
-- was destroyed; and once the nursery is being cancelled, or a task has failed, every task that is
-- with it was cancelled or is among those that are cancelled next, and so is every task that is
-- started later.
pub run-IsReached :
    (t : ℕ) (l : Log) (es : List NurseryEvent) → IsReached t l → IsReached t (run l es)
unfolding run
run-IsReached t l [] f = f
run-IsReached t l (e ∷ es) f = run-IsReached t (step l e) es (step-IsReached t l e f)
