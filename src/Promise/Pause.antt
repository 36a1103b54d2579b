-- ===== src/Promise/Pause.antt =====
-- How a task that is cancelled, or awaits, goes on (Promise.h).
use hf_qcorral.Prelude.{
  ◌≡◌, refl, ◌∙◌, ◌⊎◌, inl, inr, Bool, true, false, not, ◌&&◌, if_cases, arith,
}
use hf_qcorral.Awaitable.{
  OnSuspend, keeps, resumes, throws, OnCancel, confirms, defers, completes, Script,
}
use hf_qcorral.Promise.{
  Activity, ready, running, suspended, OnResumed, resume, resume_after_cancel, nothing, present,
  Promise, requested, do_resume, propagate_cancel, do_resume_after_cancel, resumed,
  resume_cancelled, call, cancel_at, forward_cancel, suspend, hook_await_suspend, await,
}
use hf_qcorral.Promise.Protocol.{is_running, steps, IsHooked, IsAlive, IsOver, Life}

-- Under way, and not in the queue.
pub record Quiet (p : Promise) : Type 0 where
  pub parent : p.parent ≡ present
  pub queued : p.queued ≡ 0
  pub continued : p.continued ≡ 0
  pub no_fault : p.fault ≡ false

do_resume-IsAlive : (p : Promise) → Quiet p → IsAlive (do_resume p)
unfolding do_resume
do_resume-IsAlive p q = record {
  parent = q.parent;
  queued = omega (arith, q.queued);
  continued = q.continued;
  no_fault = q.no_fault;
  hooked = inr refl;
}

propagate_cancel-IsOver : (p : Promise) → Quiet p → IsOver (propagate_cancel p)
unfolding propagate_cancel
propagate_cancel-IsOver p q = record {
  parent = refl;
  queued = q.queued;
  continued = omega (arith, q.continued);
  no_fault = ground (arith, q.no_fault, q.parent);
}

resume_cancelled-Life : (a : Activity) (p : Promise) → Quiet p → Life (resume_cancelled a p)
unfolding resume_cancelled
resume_cancelled-Life (ready c) p q = inr (inr (propagate_cancel-IsOver p q))
resume_cancelled-Life (running c) p q = inr (inr (propagate_cancel-IsOver p q))
resume_cancelled-Life (suspended aw) p q =
    if_cases Life aw.must_resume _ _
      (λ _. inr (
        inl (
          do_resume-IsAlive (record p { activity = ready true })
            record {
              parent = q.parent;
              queued = q.queued;
              continued = q.continued;
              no_fault = q.no_fault;
            })))
      (λ _. inr (inr (propagate_cancel-IsOver p q)))

-- A handle that has something to do.
call-Life :
    (f : OnResumed) (p : Promise)
    → Quiet p
    → (f ≡ resume) ⊎ (f ≡ resume_after_cancel)
    → Life (call f p)
unfolding call do_resume_after_cancel
call-Life resume p q h = inr (inl (do_resume-IsAlive p q))
call-Life resume_after_cancel p q h = resume_cancelled-Life p.activity p q
call-Life nothing p q (inl e) = cc
call-Life nothing p q (inr e) = cc

pub IsAlive-Quiet : (p : Promise) → IsAlive p → steps p.activity p.on_resume ≡ 0 → Quiet p
IsAlive-Quiet p v e = record {
  parent = v.parent;
  queued = v.queued ∙ e;
  continued = v.continued;
  no_fault = v.no_fault;
}

pub call_alive-Life :
    (a : Activity) (f : OnResumed) (p : Promise)
    → p.activity ≡ a
    → p.on_resume ≡ f
    → is_running a ≡ false
    → IsAlive p
    → IsHooked a f
    → Life (call f p)
unfolding call
call_alive-Life (ready c) f p e g r v (inl h) =
    call-Life f p (IsAlive-Quiet p v (rw (e, g, h) refl)) (inl h)
call_alive-Life (ready c) f p e g r v (inr h) = rw h (inr (inl v))
call_alive-Life (running c) f p e g r v h = cc
call_alive-Life (suspended aw) f p e g r v h = call-Life f p (IsAlive-Quiet p v (rw e refl)) h

forward_cancel-Life :
    (r : OnCancel) (p : Promise) (aw : Script)
    → p.activity ≡ suspended aw
    → p.on_resume ≡ resume_after_cancel
    → Quiet p
    → Life (forward_cancel r p)
unfolding forward_cancel do_resume_after_cancel
forward_cancel-Life confirms p aw e f q = inr (inr (propagate_cancel-IsOver p q))
forward_cancel-Life defers p aw e f q = inr (
    inl record {
      parent = q.parent;
      queued = q.queued ∙ rw e refl;
      continued = q.continued;
      no_fault = q.no_fault;
      hooked = rw e (inr f);
    })
forward_cancel-Life completes p aw e f q = resume_cancelled-Life p.activity p q

pub cancel_at-Life :
    (a : Activity) (p : Promise)
    → p.activity ≡ a
    → IsAlive p
    → IsHooked a p.on_resume
    → Life (cancel_at a p)
unfolding cancel_at
cancel_at-Life (ready c) p e v h = inr (
    inl record {
      parent = v.parent;
      queued = v.queued ∙ rw e refl;
      continued = v.continued;
      no_fault = v.no_fault;
      hooked = h;
    })
cancel_at-Life (running c) p e v h = inr (
    inl record {
      parent = v.parent;
      queued = v.queued ∙ rw e refl;
      continued = v.continued;
      no_fault = v.no_fault;
      hooked = h;
    })
cancel_at-Life (suspended aw) p e v h =
    let q = IsAlive-Quiet p v (rw e refl) in
    forward_cancel-Life aw.on_cancel (record p { on_resume = resume_after_cancel }) aw e refl
      record {
        parent = q.parent;
        queued = q.queued;
        continued = q.continued;
        no_fault = q.no_fault;
      }

suspend-Life :
    (r : OnSuspend) (c : Bool) (p : Promise) (aw : Script)
    → p.activity ≡ suspended aw
    → (p.on_resume ≡ resume) ⊎ (p.on_resume ≡ resume_after_cancel)
    → Quiet p
    → Life (suspend r c p)
unfolding suspend resumed
suspend-Life keeps c p aw e f q = inr (
    inl record {
      parent = q.parent;
      queued = q.queued ∙ rw e refl;
      continued = q.continued;
      no_fault = q.no_fault;
      hooked = rw e f;
    })
suspend-Life resumes c p aw e f q = call-Life p.on_resume p q f
suspend-Life (throws ex) c p aw e f q = inr (
    inl record {
      parent = q.parent;
      queued = q.queued;
      continued = q.continued;
      no_fault = q.no_fault;
      hooked = tt;
    })

Quiet-set :
    (a : Activity) (f : OnResumed) (p : Promise)
    → Quiet p
    → Quiet (record p { activity = a; on_resume = f })
Quiet-set a f p q = record {
  parent = q.parent;
  queued = q.queued;
  continued = q.continued;
  no_fault = q.no_fault;
}

hook-Life : (aw : Script) (p : Promise) → Quiet p → Life (hook_await_suspend aw p)
unfolding hook_await_suspend resumed
hook-Life aw p q =
    let hooked = λ (f : OnResumed). record p { activity = suspended aw; on_resume = f } in
    let quiet = λ (f : OnResumed). Quiet-set (suspended aw) f p q in
    if_cases Life (requested p.activity) _ _
      (λ _.
        if_cases Life aw.early_cancel _ _
          (λ _. inr (inr (propagate_cancel-IsOver (hooked p.on_resume) (quiet p.on_resume))))
          (λ _.
            if_cases Life aw.is_ready _ _
              (λ _.
                call-Life resume_after_cancel (hooked resume_after_cancel)
                  (quiet resume_after_cancel) (inr refl))
              (λ _.
                suspend-Life aw.on_suspend true (hooked resume_after_cancel) aw refl (inr refl)
                  (quiet resume_after_cancel))))
      (λ _. suspend-Life aw.on_suspend false (hooked resume) aw refl (inl refl) (quiet resume))

pub await-Life : (aw : Script) (p : Promise) → IsAlive p → Quiet p → Life (await aw p)
unfolding await
await-Life aw p v q =
    if_cases Life (not (requested p.activity) && aw.is_ready) _ _ (λ _. inr (inl v))
      (λ _. hook-Life aw p q)
