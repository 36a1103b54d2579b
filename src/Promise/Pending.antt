-- ===== src/Promise/Pending.antt =====
-- What becomes of a request to cancel a task (Promise.h).
use hf_qcorral.Prelude.{
  ◌≡◌, refl, sym, subst, ◌∙◌, ◌⊎◌, inl, inr, true, false, not, ◌&&◌, if_cases, List, [], ◌∷◌, arith,
}
use hf_qcorral.Awaitable.{
  OnSuspend, keeps, resumes, throws, OnCancel, confirms, defers, completes, Script,
}
use hf_qcorral.Promise.{
  Activity, ready, running, suspended, OnResumed, resume, resume_after_cancel, nothing, unset, gone,
  Promise, start, requested, do_resume, propagate_cancel, do_resume_after_cancel, resumed,
  resume_cancelled, call, cancel_at, run_step, forward_cancel, cancel, suspend, hook_await_suspend,
  await, finish,
}
use hf_qcorral.Promise.Protocol.{
  TaskEvent, starts, runs, completed, is_cancelled, ends, co_awaits, is_running, is_possible, apply,
  step, run, IsHooked, IsAlive, Life,
}
use hf_qcorral.Promise.Once.{step-Life, over_impossible}

-- The request will be noted at the next suspension, or when the awaitee completes.
abbrev pub IsPendingIn : Activity → OnResumed → Type 0
IsPendingIn (ready c) f = c ≡ true
IsPendingIn (running c) f = c ≡ true
IsPendingIn (suspended aw) f = f ≡ resume_after_cancel

-- The task has ended, or a request to cancel it is pending.
abbrev pub IsPending : Promise → Type 0
IsPending p = (p.parent ≡ gone) ⊎ IsPendingIn p.activity p.on_resume

resume_cancelled-IsPending : (a : Activity) (p : Promise) → IsPending (resume_cancelled a p)
unfolding resume_cancelled do_resume propagate_cancel
resume_cancelled-IsPending (ready c) p = inl refl
resume_cancelled-IsPending (running c) p = inl refl
resume_cancelled-IsPending (suspended aw) p =
    if_cases IsPending aw.must_resume _ _ (λ _. inr refl) (λ _. inl refl)

cancel_at-IsPending : (a : Activity) (p : Promise) → p.activity ≡ a → IsPending (cancel_at a p)
unfolding cancel_at forward_cancel propagate_cancel do_resume_after_cancel
cancel_at-IsPending (ready c) p e = inr refl
cancel_at-IsPending (running c) p e = inr refl
cancel_at-IsPending (suspended aw) p e = forwarded aw.on_cancel
  where
    forwarded :
        (r : OnCancel) → IsPending (forward_cancel r (record p { on_resume = resume_after_cancel }))
    forwarded confirms = inl refl
    forwarded defers = rw e (inr refl)
    forwarded completes =
        resume_cancelled-IsPending p.activity (record p { on_resume = resume_after_cancel })

call-IsPending :
    (a : Activity) (f : OnResumed) (p : Promise)
    → p.activity ≡ a
    → is_running a ≡ false
    → IsHooked a f
    → IsPendingIn a f
    → p.on_resume ≡ f
    → IsPending (call f p)
unfolding call do_resume do_resume_after_cancel
call-IsPending (ready c) resume p e r h v g = inr (rw e v)
call-IsPending (ready c) resume_after_cancel p e r h v g = resume_cancelled-IsPending p.activity p
call-IsPending (ready c) nothing p e r h v g = inr (rw e v)
call-IsPending (running c) f p e r h v g = cc
call-IsPending (suspended aw) f p e r h v g = rw v (resume_cancelled-IsPending p.activity p)

suspend-IsPending :
    (r : OnSuspend) (aw : Script) (p : Promise)
    → p.activity ≡ suspended aw
    → p.on_resume ≡ resume_after_cancel
    → IsPending (suspend r true p)
unfolding suspend resumed call do_resume_after_cancel
suspend-IsPending keeps aw p e f = inr (rw (e, f) refl)
suspend-IsPending resumes aw p e f =
    subst (λ g. IsPending (call g p)) (sym f) (resume_cancelled-IsPending p.activity p)
suspend-IsPending (throws ex) aw p e f = inr refl

await-IsPending : (aw : Script) (p : Promise) → requested p.activity ≡ true → IsPending (await aw p)
unfolding await hook_await_suspend propagate_cancel resumed call do_resume_after_cancel
await-IsPending aw p e =
    let hooked = record p { activity = suspended aw; on_resume = resume_after_cancel } in
    if_cases IsPending (not (requested p.activity) && aw.is_ready) p _ (λ n. absurd (ground arith))
      (λ _.
        if_cases IsPending (requested p.activity) _ _
          (λ _.
            if_cases IsPending aw.early_cancel _ _ (λ _. inl refl)
              (λ _.
                if_cases IsPending aw.is_ready _ _
                  (λ _. resume_cancelled-IsPending (suspended aw) hooked)
                  (λ _. suspend-IsPending aw.on_suspend aw hooked refl refl)))
          (λ n. cc (e, n)))

-- What is possible shows the stage that the task is in.
possible-IsAlive :
    (e : TaskEvent) (p : Promise) → is_possible e p ≡ true → Life p → (p.parent ≡ unset) ⊎ IsAlive p
possible-IsAlive e p t (inl v) = inl v.parent
possible-IsAlive e p t (inr (inl v)) = inr v
possible-IsAlive e p t (inr (inr o)) = cc (over_impossible e p o, t)

start-IsPending :
    (a : Activity) (p : Promise)
    → p.activity ≡ a
    → is_possible starts p ≡ true
    → Life p
    → IsPendingIn a p.on_resume
    → IsPending (start p)
unfolding start
start-IsPending (ready c) p h t l v = inr (rw h v)
start-IsPending (running c) p h t l v = inr (rw h v)
start-IsPending (suspended aw) p h t (inl n) v = let (c, e) = n.idle in cc (e, h)
start-IsPending (suspended aw) p h t (inr (inl n)) v = absurd (ground (arith, n.parent))
start-IsPending (suspended aw) p h t (inr (inr o)) v = cc (over_impossible starts p o, t)

run_step-IsPending :
    (a : Activity) (p : Promise)
    → p.activity ≡ a
    → is_possible runs p ≡ true
    → Life p
    → IsPendingIn a p.on_resume
    → IsPending (run_step p)
unfolding run_step
run_step-IsPending (ready c) p h t l v = inr (rw h v)
run_step-IsPending (running c) p h t l v = inr (rw h v)
run_step-IsPending (suspended aw) p h t (inl n) v = let (c, e) = n.idle in cc (e, h)
run_step-IsPending (suspended aw) p h t (inr (inl n)) v =
    let none_queued : p.queued ≡ 0 = n.queued ∙ rw h refl in absurd (ground (arith, none_queued))
run_step-IsPending (suspended aw) p h t (inr (inr o)) v = cc (over_impossible runs p o, t)

awaiting-IsPending :
    (aw : Script) (a : Activity) (p : Promise)
    → p.activity ≡ a
    → is_possible (co_awaits aw) p ≡ true
    → IsPendingIn a p.on_resume
    → IsPending (await aw p)
awaiting-IsPending aw (running c) p h t v = await-IsPending aw p (rw h v)
awaiting-IsPending aw (ready c) p h t v = absurd (ground arith)
awaiting-IsPending aw (suspended x) p h t v = absurd (ground arith)

completed-IsPending :
    (a : Activity) (p : Promise)
    → p.activity ≡ a
    → is_possible completed p ≡ true
    → Life p
    → IsPendingIn a p.on_resume
    → IsPending (resumed p)
unfolding resumed
completed-IsPending a p h t (inl n) v = absurd (ground (arith, n.parent))
completed-IsPending a p h t (inr (inl n)) v =
    call-IsPending a p.on_resume p h (ground (arith, n.parent)) (rw h at n.hooked) v refl
completed-IsPending a p h t (inr (inr o)) v = cc (over_impossible completed p o, t)

apply-IsPending :
    (e : TaskEvent) (p : Promise)
    → is_possible e p ≡ true
    → Life p
    → IsPendingIn p.activity p.on_resume
    → IsPending (apply e p)
unfolding apply cancel finish
apply-IsPending starts p t l v = start-IsPending p.activity p refl t l v
apply-IsPending runs p t l v = run_step-IsPending p.activity p refl t l v
apply-IsPending completed p t l v = completed-IsPending p.activity p refl t l v
apply-IsPending is_cancelled p t l v = cancel_at-IsPending p.activity p refl
apply-IsPending ends p t l v = inl refl
apply-IsPending (co_awaits aw) p t l v = awaiting-IsPending aw p.activity p refl t v

gone_impossible : (e : TaskEvent) (p : Promise) → p.parent ≡ gone → Life p → is_possible e p ≡ false
gone_impossible e p g (inl v) = cc (v.parent, g)
gone_impossible e p g (inr (inl v)) = cc (v.parent, g)
gone_impossible e p g (inr (inr o)) = over_impossible e p o

step-IsPending : (p : Promise) (e : TaskEvent) → Life p → IsPending p → IsPending (step p e)
unfolding step
step-IsPending p e l (inl g) =
    if_cases IsPending (is_possible e p) _ _ (λ t. cc (gone_impossible e p g l, t)) (λ _. inl g)
step-IsPending p e l (inr v) =
    if_cases IsPending (is_possible e p) _ _ (λ t. apply-IsPending e p t l v) (λ _. inr v)

run-IsPending_from :
    (p : Promise) (es : List TaskEvent) → Life p → IsPending p → IsPending (run p es)
unfolding run
run-IsPending_from p [] l v = v
run-IsPending_from p (e ∷ es) l v =
    run-IsPending_from (step p e) es (step-Life p e l) (step-IsPending p e l v)

cancelled-IsPending : (p : Promise) → Life p → IsPending (step p is_cancelled)
unfolding step apply cancel
cancelled-IsPending p l =
    if_cases IsPending (is_possible is_cancelled p) _ _ (λ _. cancel_at-IsPending p.activity p refl)
      (λ n. inl (ground arith))

-- A request to cancel a task is not forgotten: in whatever stage it comes, and whatever the task
-- and its awaitees do afterwards, at every later moment the task has ended, or the request is
-- pending: noted in the state of a task that is scheduled or running, or, for a suspended task, in
-- the handle that its awaitee will resume.
pub run-IsPending :
    (p : Promise) (es : List TaskEvent) → Life p → IsPending (run (step p is_cancelled) es)
run-IsPending p es l =
    run-IsPending_from (step p is_cancelled) es (step-Life p is_cancelled l)
      (cancelled-IsPending p l)
